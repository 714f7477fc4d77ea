-- ===== src/Processors/Identity.antt =====
-- `uniqueCoreID` of proc.hpp tells the physical cores of a machine apart.
use tailslayer_win.Common.{◌+◌, ◌*◌, ◌%◌, ◌^◌, ◌≡◌, arith, sym, ◌∙◌, bit_or-shifted}
use tailslayer_win.Processors.{LogicalProcessor, IsSized, unique_core_id}

pub unique_core_id_lem :
    (lp : LogicalProcessor) → IsSized lp → unique_core_id lp ≡ lp.core_id + lp.pkg_id * 2 ^ 32
unfolding unique_core_id
unique_core_id_lem lp sized =
    let fits : lp.pkg_id * 2 ^ 32 % 2 ^ 64 ≡ lp.pkg_id * 2 ^ 32 = omega (arith, sized.pkg_fits) in
    rw fits (bit_or-shifted 32 lp.core_id lp.pkg_id sized.core_fits)

-- Two logical processors whose fields fit their widths and that `uniqueCoreID` gives the same value
-- have the same core number and the same package number.
pub unique_core_id_injective :
    (lp lq : LogicalProcessor)
    → IsSized lp
    → IsSized lq
    → unique_core_id lp ≡ unique_core_id lq
    → (lp.core_id ≡ lq.core_id) × (lp.pkg_id ≡ lq.pkg_id)
unique_core_id_injective lp lq sp sq same =
    let sum : lp.core_id + lp.pkg_id * 2 ^ 32 ≡ lq.core_id + lq.pkg_id * 2 ^ 32 =
      sym (unique_core_id_lem lp sp) ∙ same ∙ unique_core_id_lem lq sq in
    (omega (arith, sum, sp.core_fits, sq.core_fits), omega (arith, sum, sp.core_fits, sq.core_fits))

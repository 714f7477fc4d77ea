-- ===== src/Processors/Linux/Topology.antt =====
-- What `ProcessCurrentConfiguration` of proc.cpp reads on Linux.
use tailslayer_win.Common.{
  ℕ, zero, suc, ◌+◌, ◌^◌, ◌≤◌, ◌<◌, ◌≡◌, refl, sym, ap, ◌∙◌, arith, Bool, true, false, ◌==◌, ne→==,
  List, [], ◌∷◌, ◌++◌, append-nil, append_assoc, some, length, length-tabulate, tabulate, get_or,
  get_or-tabulate, max64,
}
use tailslayer_win.Processors.{LogicalProcessor, Configuration}
use tailslayer_win.Processors.Sysfs.{read_sysfs_int}
use tailslayer_win.Processors.Sysfs.Decimal.{decimal, read_sysfs_int-decimal}
use tailslayer_win.Processors.Linux.{
  System, cpu_isset, entry, unreadable, read_processors, with_proc, read_machine,
  process_current_configuration, initialize_configuration,
}

read_processors-all :
    (os : System) (allowed : ℕ → Bool) (left i : ℕ) (proc : List LogicalProcessor)
    → ((j : ℕ) → i ≤ j → j < i + left → unreadable os j ≡ false)
    → read_processors os allowed left i proc ≡ (proc ++ tabulate left i (entry os allowed), true)
unfolding read_processors
read_processors-all os allowed zero i proc all = ap (λ p. (p, true)) (sym (append-nil proc))
read_processors-all os allowed (suc left) i proc all = rw (all i (omega arith) (omega arith)) (
    read_processors-all os allowed left (suc i) (proc ++ entry os allowed i ∷ [])
      (λ j ge lt. all j (omega arith) (omega arith))
    ∙ ap (λ p. (p, true))
        (append_assoc proc (entry os allowed i ∷ []) (tabulate left (suc i) (entry os allowed))))

read_processors-stops :
    (os : System) (allowed : ℕ → Bool) (before after i : ℕ) (proc : List LogicalProcessor)
    → ((j : ℕ) → i ≤ j → j < i + before → unreadable os j ≡ false)
    → unreadable os (before + i) ≡ true
    → read_processors os allowed (before + suc after) i proc
      ≡ (proc ++ tabulate before i (entry os allowed), false)
unfolding read_processors
read_processors-stops os allowed zero after i proc all last =
    let here : 0 + i ≡ i = omega arith in
    let rounds : 0 + suc after ≡ suc after = omega arith in
    rw rounds (rw (rw here at last) (ap (λ p. (p, false)) (sym (append-nil proc))))
read_processors-stops os allowed (suc before) after i proc all last =
    let rounds : suc before + suc after ≡ suc (before + suc after) = omega arith in
    let next : suc before + i ≡ before + suc i = omega arith in
    rw (rounds, all i (omega arith) (omega arith))
      (read_processors-stops os allowed before after (suc i) (proc ++ entry os allowed i ∷ [])
          (λ j ge lt. all j (omega arith) (omega arith)) (rw next at last)
        ∙ ap (λ p. (p, false))
            (append_assoc proc (entry os allowed i ∷ [])
              (tabulate before (suc i) (entry os allowed))))

-- Once the first two calls have succeeded, the loop is what is left.
initialize_configuration-loop :
    (os : System) (n : ℕ) (allowed : ℕ → Bool) (before : Configuration)
    → os.processors ≡ some n
    → os.allowed ≡ some allowed
    → initialize_configuration os before
      ≡ with_proc (record before { proc = [] }) (read_processors os allowed n 0 [])
unfolding initialize_configuration process_current_configuration
initialize_configuration-loop os n allowed before configured affinity =
    ap (λ p. read_machine os p os.allowed (record before { proc = [] })) configured
    ∙ ap (λ a. read_machine os (some n) a (record before { proc = [] })) affinity

-- The topology files of a machine of `n` processors, as the kernel prints them.
pub record IsTopology (os : System) (n : ℕ) (allowed : ℕ → Bool) (core package_of : ℕ → ℕ)
    : Type 0 where
  pub configured : os.processors ≡ some n
  pub affinity : os.allowed ≡ some allowed
  pub core_printed : (i : ℕ) → i < n → os.core_file i ≡ some (decimal 18 (core i) ++ b'\n' ∷ [])
  pub package_printed :
      (i : ℕ) → i < n → os.package_file i ≡ some (decimal 18 (package_of i) ++ b'\n' ∷ [])
  pub core_fits : (i : ℕ) → i < n → core i < 2 ^ 32
  pub package_fits : (i : ℕ) → i < n → package_of i < 2 ^ 16

module _ (os : System) (n : ℕ) (allowed : ℕ → Bool) (core package_of : ℕ → ℕ)
    (h : IsTopology os n allowed core package_of) where
  core-read : (i : ℕ) → i < n → read_sysfs_int (os.core_file i) ≡ core i
  core-read i lt =
      ap read_sysfs_int (h.core_printed i lt)
      ∙ read_sysfs_int-decimal (core i) (omega (arith, h.core_fits i lt))

  package-read : (i : ℕ) → i < n → read_sysfs_int (os.package_file i) ≡ package_of i
  package-read i lt =
      ap read_sysfs_int (h.package_printed i lt)
      ∙ read_sysfs_int-decimal (package_of i) (omega (arith, h.package_fits i lt))

  readable : (i : ℕ) → i < n → unreadable os i ≡ false
  unfolding unreadable
  readable i lt =
      let core_there : (core i == max64) ≡ false =
        ne→== (core i) max64 (λ e. absurd (omega (arith, h.core_fits i lt))) in
      let package_there : (package_of i == max64) ≡ false =
        ne→== (package_of i) max64 (λ e. absurd (omega (arith, h.package_fits i lt))) in
      rw (core-read i lt, core_there, package-read i lt, package_there) refl

  pub initialize_configuration-eq :
      (before : Configuration)
      → initialize_configuration os before
        ≡ (record before { proc = tabulate n 0 (entry os allowed) }, true)
  initialize_configuration-eq before =
      initialize_configuration-loop os n allowed before h.configured h.affinity
      ∙ ap (with_proc (record before { proc = [] }))
          (read_processors-all os allowed n 0 [] (λ j ge lt. readable j (omega arith)))

-- With the topology files of `n` processors as the kernel prints them, `initialize` succeeds and
-- lists `n` processors; processor `i` has its place as its identity and the core and package numbers
-- of its files, and is usable if the affinity set of the process has it.
pub initialize_configuration-reads :
    (os : System) (n : ℕ) (allowed : ℕ → Bool) (core package_of : ℕ → ℕ) (before : Configuration)
    (d : LogicalProcessor)
    → IsTopology os n allowed core package_of
    → (c : Configuration) × (initialize_configuration os before ≡ (c, true))
      × (length c.proc ≡ n)
      × ((i : ℕ)
          → i < n
          → let lp = get_or c.proc i d in
            (lp.global_id ≡ i)
            × (lp.core_id ≡ core i)
            × (lp.pkg_id ≡ package_of i)
            × (lp.usable ≡ cpu_isset allowed i))
initialize_configuration-reads os n allowed core package_of before d h = (
  record before { proc = tabulate n 0 (entry os allowed) },
  initialize_configuration-eq os n allowed core package_of h before,
  length-tabulate n 0 (entry os allowed),
  λ i lt.
      let place : i + 0 ≡ i = omega arith in
      rw (get_or-tabulate n 0 i (entry os allowed) d lt, place)
        (
          refl,
          rw (core-read os n allowed core package_of h i lt) (omega (arith, h.core_fits i lt)),
          rw (package-read os n allowed core package_of h i lt)
              (omega (arith, h.package_fits i lt)),
          refl,
        ),
)

-- When a file of processor `i` cannot be read and those of the processors before it can, `initialize`
-- fails and leaves these `i` processors in the list.
pub initialize_configuration-partial :
    (os : System) (i after : ℕ) (allowed : ℕ → Bool) (before : Configuration)
    → os.processors ≡ some (i + suc after)
    → os.allowed ≡ some allowed
    → ((j : ℕ) → j < i → unreadable os j ≡ false)
    → unreadable os i ≡ true
    → (c : Configuration) × (initialize_configuration os before ≡ (c, false)) × (length c.proc ≡ i)
initialize_configuration-partial os i after allowed before configured affinity readable_below last =
    let place : i + 0 ≡ i = omega arith in
    (
      record before { proc = tabulate i 0 (entry os allowed) },
      initialize_configuration-loop os (i + suc after) allowed before configured affinity
          ∙ ap (with_proc (record before { proc = [] })) (
              read_processors-stops os allowed i after 0 []
                (λ j ge lt. readable_below j (omega arith)) (rw place last)),
      length-tabulate i 0 (entry os allowed),
    )

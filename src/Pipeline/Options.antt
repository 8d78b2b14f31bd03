-- ===== src/Pipeline/Options.antt =====
-- src/aodv.c: the options of `main`, and the configuration files that they name.
use Prim.Native.String.{String}
use des_aodv.Common.{
  ℕ, ◌≡◌, ◌⊎◌, ◌≤◌, refl, subst, ◌*◌, Bool, true, false, Option, none, some, List, [], ◌∷◌, ◌++◌,
  ◌==◌, if◌then◌else◌, length, length-append, arith, Bool-cases, Option-cases, inl, inr,
}

-- what `getopt` gives for "nc:"; `opt_other` is an option that it does not know
pub data Opt : Type 0 where
  opt_n : Opt
  opt_c : String → Opt
  opt_other : Opt

-- `init_flags`, which says whether the daemon goes to the background, and the array
-- `config_names`, with its first `used` elements and the elements that it has room for
pub record Names : Type 0 where
  pub daemonize : Bool
  pub names : List String
  pub size : ℕ

abbrev pub no_names : Names
no_names = record { daemonize = true; names = []; size = 2 }

-- One round of the loop; `none` is `exit(EXIT_FAILURE)`. The results of `malloc` and `realloc` are
-- not tested.
unfoldable pub read_option : Names → Opt → Option Names
read_option n opt_n = some (record n { daemonize = false })
read_option n (opt_c name) = some (record n {
  names = n.names ++ (name ∷ []);
  size = if length n.names == n.size then n.size * 2 else n.size;
})
read_option n opt_other = none

unfoldable pub read_options : Names → List Opt → Option Names
read_options n [] = some n
read_options n (opt ∷ opts) = elim (read_option n opt) [
  | none ↦ none
  | some n' ↦ read_options n' opts
]

-- The configuration files: those of the options, that of the old style, `default_path` for the
-- program's name, or a file in the working directory. `args` are the arguments after the program's
-- name, `optind` what `getopt` leaves in its variable.
unfoldable pub config_files : Names → ℕ → List String → String → List String
config_files n optind args default_path =
    if optind == 1
    then elim args [ [] ↦ n.names ++ (default_path ∷ []) | arg ∷ rest ↦ n.names ++ (arg ∷ []) ]
    else if length n.names == 0
    then n.names ++ ("./des-aodv.cli" ∷ [])
    else n.names

-- All names are in the array.
abbrev pub Fits : Names → Type 0
Fits n = (length n.names ≤ n.size) × (2 ≤ n.size)

read_option-Fits : (n n' : Names) (opt : Opt) → Fits n → read_option n opt ≡ some n' → Fits n'
unfolding read_option
read_option-Fits n n' opt_n fits ran = ground (arith, fits, ran)
read_option-Fits n n' (opt_c name) fits ran =
    ground (arith, fits, ran, length-append n.names (name ∷ []))
read_option-Fits n n' opt_other fits ran = absurd (ground (arith, ran))

read_options-Fits :
    (n n' : Names) (opts : List Opt) → Fits n → read_options n opts ≡ some n' → Fits n'
unfolding read_options
read_options-Fits n n' [] fits ran = ground (arith, fits, ran)
read_options-Fits n n' (opt ∷ opts) fits ran = elim (Option-cases (read_option n opt)) [
  | inl refused ↦ absurd (ground (arith, refused, ran))
  | inr (n1, read) ↦
      read_options-Fits n1 n' opts (read_option-Fits n n1 opt fits read)
        (rw (read, read_options) at ran)
]

List-cases : (l : List String) → (l ≡ []) ⊎ ((a : String) × (rest : List String) × (l ≡ a ∷ rest))
List-cases [] = inl refl
List-cases (a ∷ rest) = inr (a, rest, refl)

-- However many options there are, the array has room for each name that is written to it, also for
-- the one that is added where the options name none.
pub config_files_fit :
    (n : Names) (opts : List Opt) (optind : ℕ) (args : List String) (default_path : String)
    → read_options no_names opts ≡ some n
    → (optind ≡ 1 → opts ≡ [])
    → (length (config_files n optind args default_path) ≤ n.size)
      × (1 ≤ length (config_files n optind args default_path))
unfolding config_files read_options
config_files_fit n opts optind args default_path ran old_style =
    let fits = read_options-Fits no_names n opts (omega arith, omega arith) ran in
    elim (Bool-cases (optind == 1)) [
      | inl old ↦
          let empty : some no_names ≡ some n =
            subst (λ l. read_options no_names l ≡ some n) (old_style (ground (arith, old))) ran in
          elim (List-cases args) [
            | inl none_given ↦
                ground
                  (arith, fits, old, none_given, empty, length-append n.names (default_path ∷ []))
            | inr (arg, rest, given) ↦
                ground (arith, fits, old, given, empty, length-append n.names (arg ∷ []))
          ]
      | inr options ↦ elim (Bool-cases (length n.names == 0)) [
        | inl unnamed ↦
            ground (arith, fits, options, unnamed, length-append n.names ("./des-aodv.cli" ∷ []))
        | inr named ↦ ground (arith, fits, options, named)
      ]
    ]

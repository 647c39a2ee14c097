-- ===== src/Process/Passphrase.antt =====
-- internal/backup/process.go: where the secrets are when a child runs.
use mongodb_backup_s.Databases.{contains}
use mongodb_backup_s.Base.{
  refl, Bool, true, ◌∙◌, ◌&&◌, ◌||◌, not, has_prefix, str_eq→eq, arith, ◌+◌, ◌≡◌, sym, ap, inl, inr,
  false, List, [], ◌∷◌, ◌++◌, Bytes, codes, Bool-cases, length, str_eq, Result, ok, err,
  ok-injective,
}
use mongodb_backup_s.Clock.{decimal}
use mongodb_backup_s.Process.{
  File, opened, Runner, Child, is_database_tool, entry_key, is_secret_key, child_environment,
  tool_args, inherited, command,
}

-- An entry for a setting of the program itself, or for the passphrase.
abbrev pub is_own : Bytes → Bool
is_own entry =
    has_prefix (entry_key entry) (codes "MONGODB_") || str_eq (entry_key entry) (codes "PASSPHRASE")

contains-child_environment :
    (environ : List Bytes) (entry : Bytes)
    → contains (child_environment environ) entry ≡ (contains environ entry && not (is_own entry))
unfolding child_environment contains is_secret_key
contains-child_environment [] entry = refl
contains-child_environment (other ∷ environ) entry = elim (Bool-cases (is_own other)) [
  | inl e ↦ elim (Bool-cases (str_eq entry other)) [
    | inl same ↦
        let own : is_own entry ≡ true = ap is_own (str_eq→eq entry other same) ∙ e in
        rw e (contains-child_environment environ entry ∙ ground (arith, own))
    | inr apart ↦ rw (e, apart) (contains-child_environment environ entry)
  ]
  | inr e ↦ elim (Bool-cases (str_eq entry other)) [
    | inl same ↦
        let others : is_own entry ≡ false = ap is_own (str_eq→eq entry other same) ∙ e in
        rw (e, same) (ground (arith, others))
    | inr apart ↦ rw (e, apart) (contains-child_environment environ entry)
  ]
]

-- How gpg is started: it reads the passphrase from a descriptor, whose number counts the three
-- standard files and the files in front of the passphrase's.
pub record IsSealed (r : Runner) (environ args : List Bytes) (child : Child) : Type 0 where
  pub before : List File
  pub files : child.extra_files ≡ before ++ (opened r.passphrase_file ∷ [])
  pub passed : child.args ≡ codes "--passphrase-fd" ∷ decimal (3 + length before) ∷ args
  pub env :
      (entry : Bytes) → contains child.env entry ≡ (contains environ entry && not (is_own entry))

-- A gpg that is started gets the passphrase's file as the descriptor that its arguments name,
-- whether or not the lock goes to it too. Its environment has the entries of the program's own that are
-- neither named MONGODB_ with anything behind nor PASSPHRASE, and no others.
pub command-IsSealed :
    (r : Runner) (environ : List Bytes) (passphrase : Result (Unit {0})) (args : List Bytes)
    (child : Child)
    → command r environ passphrase (codes "gpg") args ≡ ok child
    → IsSealed r environ args child
unfolding command tool_args is_database_tool str_eq
command-IsSealed r environ (err e) args child h = cc
command-IsSealed r environ (ok u) args child h = record {
  before = inherited r;
  files = ap (λ c. c.extra_files) (sym (ok-injective h));
  passed = ap (λ c. c.args) (sym (ok-injective h));
  env = rw (sym (ok-injective h)) (contains-child_environment environ);
}

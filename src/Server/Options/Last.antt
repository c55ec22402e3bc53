-- ===== src/Server/Options/Last.antt =====
-- What `get_program_opts` of src/args.h reads, option by option.
use yotta.Prelude.{
  ℕ, ◌≡◌, refl, sym, ◌∙◌, ap, subst, Bool, true, false, ◌||◌, List, [], ◌∷◌, Bytes, ◌==◌, ==_iff,
  if◌then◌else◌, Bool-cases, inl, inr,
}
use yotta.Core.Decimal.{atoi}
use yotta.Server.Options.{Options, default_options, set_option, read_options, get_program_opts}

-- Whether an option is there, and the last argument it has.
abbrev pub is_given : ℕ → List (ℕ × Bytes) → Bool
is_given c [] = false
is_given c ((opt, optarg) ∷ more) = opt == c || is_given c more

abbrev pub last_of {ℓ} : {A : Type ℓ} → (Bytes → A) → ℕ → A → List (ℕ × Bytes) → A
last_of read c otherwise [] = otherwise
last_of read c otherwise ((opt, optarg) ∷ more) =
    last_of read c (if opt == c then read optarg else otherwise) more

abbrev as_is : Bytes → Bytes
as_is s = s

-- Every option by itself.
abbrev pub each_last : Options → List (ℕ × Bytes) → Options
each_last options given = record {
  daemonize = options.daemonize || is_given b'g' given;
  pid_file = last_of as_is b'i' options.pid_file given;
  port = last_of as_is b'p' options.port given;
  host = last_of as_is b'h' options.host given;
  workers = last_of atoi b'w' options.workers given;
}

||_false : (b : Bool) → (b || false) ≡ b
||_false true = refl
||_false false = refl

||_true : (b c : Bool) → (b || (true || c)) ≡ true
||_true true c = refl
||_true false c = refl

-- An option against each letter.
module _ (options : Options) (optarg : Bytes) (more : List (ℕ × Bytes)) where
  abbrev Agrees : ℕ → Type 0
  Agrees opt =
      each_last (set_option options opt optarg) more ≡ each_last options ((opt, optarg) ∷ more)

  g-Agrees : Agrees b'g'
  unfolding set_option
  g-Agrees =
      ap (λ b. record (each_last options more) { daemonize = b })
        (sym (||_true options.daemonize (is_given b'g' more)))

  i-Agrees : Agrees b'i'
  unfolding set_option
  i-Agrees = refl

  p-Agrees : Agrees b'p'
  unfolding set_option
  p-Agrees = refl

  h-Agrees : Agrees b'h'
  unfolding set_option
  h-Agrees = refl

  w-Agrees : Agrees b'w'
  unfolding set_option
  w-Agrees = refl

  at_letter : (c opt : ℕ) → Agrees c → (opt == c) ≡ true → Agrees opt
  at_letter c opt a e = subst Agrees (sym ((==_iff opt c).0 e)) a

  none-Agrees :
      (opt : ℕ)
      → (opt == b'g') ≡ false
      → (opt == b'i') ≡ false
      → (opt == b'p') ≡ false
      → (opt == b'h') ≡ false
      → (opt == b'w') ≡ false
      → Agrees opt
  unfolding set_option
  none-Agrees opt g i p h w = rw (g, i, p, h, w) refl

  all-Agrees : (opt : ℕ) → Agrees opt
  all-Agrees opt = elim (Bool-cases (opt == b'g')) [
    | inl e ↦ at_letter b'g' opt g-Agrees e
    | inr g ↦ elim (Bool-cases (opt == b'i')) [
      | inl e ↦ at_letter b'i' opt i-Agrees e
      | inr i ↦ elim (Bool-cases (opt == b'p')) [
        | inl e ↦ at_letter b'p' opt p-Agrees e
        | inr p ↦ elim (Bool-cases (opt == b'h')) [
          | inl e ↦ at_letter b'h' opt h-Agrees e
          | inr h ↦ elim (Bool-cases (opt == b'w')) [
            | inl e ↦ at_letter b'w' opt w-Agrees e
            | inr w ↦ none-Agrees opt g i p h w
          ]
        ]
      ]
    ]
  ]

read_options-each_last :
    (options : Options) (given : List (ℕ × Bytes))
    → read_options options given ≡ each_last options given
unfolding read_options
read_options-each_last options [] =
    ap (λ b. record options { daemonize = b }) (sym (||_false options.daemonize))
read_options-each_last options ((opt, optarg) ∷ more) =
    read_options-each_last (set_option options opt optarg) more ∙ all-Agrees options optarg more opt

-- Whatever getopt gives, the process runs as a daemon exactly if -g is there, and every other option has
-- its last argument, the workers as atoi reads it, or its default value; the order of the options among
-- each other and unknown ones do not matter.
pub get_program_opts-each_last :
    (given : List (ℕ × Bytes)) → get_program_opts given ≡ each_last default_options given
unfolding get_program_opts
get_program_opts-each_last given = read_options-each_last default_options given

-- ===== src/Launchd/Options.antt =====
use d_inference.Launchd.Args.{convert_from, convert_rust_args_to_swift, swift_flag}
use d_inference.Prelude.{
  true, false, List, Text, All, codes, ◌∷◌, ◌≡◌, [], none, ◌++◌, refl, Option-cases, drop, some,
  ◌∙◌, inl, subst, inr, some_inj, Bool, if◌then◌else◌, some_of_none, sym, text_eq, ◌||◌,
}

-- What `convert_rust_args_to_swift` (provider/src/main.rs) makes of a command line.

-- An option of the old command line; any other word is dropped.
pub data LegacyOption : Type 0 where
  coordinator : Text → LegacyOption
  coordinator_url : Text → LegacyOption
  model : Text → LegacyOption
  idle_timeout : Text → LegacyOption
  dropped : Text → LegacyOption

abbrev pub legacy_words : LegacyOption → List Text
legacy_words (coordinator url) = codes "--coordinator" ∷ url ∷ []
legacy_words (coordinator_url url) = codes "--coordinator-url" ∷ url ∷ []
legacy_words (model name) = codes "--model" ∷ name ∷ []
legacy_words (idle_timeout time) = codes "--idle-timeout" ∷ time ∷ []
legacy_words (dropped word) = word ∷ []

abbrev pub swift_words : LegacyOption → List Text
swift_words (coordinator url) = codes "--coordinator-url" ∷ url ∷ []
swift_words (coordinator_url url) = codes "--coordinator-url" ∷ url ∷ []
swift_words (model name) = codes "--model" ∷ name ∷ []
swift_words (idle_timeout time) = codes "--idle-timeout" ∷ time ∷ []
swift_words (dropped word) = []

abbrev pub command_line : (LegacyOption → List Text) → List LegacyOption → List Text
command_line words [] = []
command_line words (o ∷ options) = words o ++ command_line words options

-- A dropped word is not itself the name of an option with a value.
abbrev pub IsLegacy : LegacyOption → Type 0
IsLegacy (dropped word) = swift_flag word ≡ none
IsLegacy o = Unit

convert_from_flag :
    (arg flag value : Text) (rest : List Text)
    → swift_flag arg ≡ some flag
    → convert_from (arg ∷ value ∷ rest) ≡ flag ∷ value ∷ convert_from rest
unfolding convert_from
convert_from_flag arg flag value rest e = rw (e, convert_from) refl

convert_from_dropped :
    (arg : Text) (rest : List Text)
    → swift_flag arg ≡ none
    → convert_from (arg ∷ rest) ≡ convert_from rest
unfolding convert_from
convert_from_dropped arg [] e = refl
convert_from_dropped arg (value ∷ rest) e = rw (e, convert_from) refl

convert_from-command_line :
    (options : List LegacyOption)
    → All IsLegacy options
    → convert_from (command_line legacy_words options) ≡ command_line swift_words options
convert_from-command_line [] h = unfold convert_from in refl
convert_from-command_line (coordinator url ∷ options) (_, h) =
    rw
      (convert_from_flag (codes "--coordinator") (codes "--coordinator-url") url
        (command_line legacy_words options) (unfold swift_flag in refl))
      rw (convert_from-command_line options h) refl
convert_from-command_line (coordinator_url url ∷ options) (_, h) =
    rw
      (convert_from_flag (codes "--coordinator-url") (codes "--coordinator-url") url
        (command_line legacy_words options) (unfold swift_flag in refl))
      rw (convert_from-command_line options h) refl
convert_from-command_line (model name ∷ options) (_, h) =
    rw
      (convert_from_flag (codes "--model") (codes "--model") name
        (command_line legacy_words options) (unfold swift_flag in refl))
      rw (convert_from-command_line options h) refl
convert_from-command_line (idle_timeout time ∷ options) (_, h) =
    rw
      (convert_from_flag (codes "--idle-timeout") (codes "--idle-timeout") time
        (command_line legacy_words options) (unfold swift_flag in refl))
      rw (convert_from-command_line options h) refl
convert_from-command_line (dropped word ∷ options) (e, h) =
    convert_from_dropped word (command_line legacy_words options) e
    ∙ convert_from-command_line options h

-- Behind the binary and the verb of an old command line, each option that has a Swift form is
-- converted with its value, in order, and each other word is dropped, if none of these other words is
-- itself the name of such an option.
pub convert_rust_args_to_swift-command_line :
    (options : List LegacyOption) (old verb binary : Text)
    → All IsLegacy options
    → convert_rust_args_to_swift (old ∷ verb ∷ command_line legacy_words options) binary
      ≡ binary ∷ codes "start" ∷ codes "--foreground" ∷ command_line swift_words options
unfolding convert_rust_args_to_swift
convert_rust_args_to_swift-command_line options old verb binary h =
    rw (convert_from-command_line options h) refl

-- A Swift flag stands for itself.
swift_flag-swift_flag : (arg flag : Text) → swift_flag arg ≡ some flag → swift_flag flag ≡ some flag
unfolding swift_flag
swift_flag-swift_flag arg flag h =
    go (text_eq arg (codes "--coordinator") || text_eq arg (codes "--coordinator-url"))
      (text_eq arg (codes "--model")) (text_eq arg (codes "--idle-timeout")) h
  where
    named :
        (name : Text)
        → swift_flag name ≡ some name
        → some name ≡ some flag
        → swift_flag flag ≡ some flag
    named name e f = subst (λ z. swift_flag z ≡ some z) (some_inj f) e

    go :
        (a b c : Bool)
        → (if a
            then some (codes "--coordinator-url")
            else if b
            then some (codes "--model")
            else if c
            then some (codes "--idle-timeout")
            else none)
          ≡ some flag
        → swift_flag flag ≡ some flag
    go true b c e = named (codes "--coordinator-url") (unfold swift_flag in refl) e
    go false true c e = named (codes "--model") (unfold swift_flag in refl) e
    go false false true e = named (codes "--idle-timeout") (unfold swift_flag in refl) e
    go false false false e = some_of_none (sym e)

convert_from-convert_from :
    (args : List Text) → convert_from (convert_from args) ≡ convert_from args
convert_from-convert_from [] = unfold convert_from in refl
convert_from-convert_from (arg ∷ []) = unfold convert_from in refl
convert_from-convert_from (arg ∷ value ∷ rest) = elim (Option-cases (swift_flag arg)) [
  | inl n ↦
      rw (convert_from_dropped arg (value ∷ rest) n) (convert_from-convert_from (value ∷ rest))
  | inr (flag, e) ↦
      rw (convert_from_flag arg flag value rest e) rw
        (convert_from_flag flag flag value (convert_from rest) (swift_flag-swift_flag arg flag e))
        rw (convert_from-convert_from rest) refl
]

-- Converting what was converted changes the path of the binary only.
pub convert_rust_args_to_swift-convert :
    (args : List Text) (binary other : Text)
    → convert_rust_args_to_swift (convert_rust_args_to_swift args binary) other
      ≡ convert_rust_args_to_swift args other
unfolding convert_rust_args_to_swift
convert_rust_args_to_swift-convert args binary other =
    rw
      (convert_from_dropped (codes "--foreground") (convert_from (drop 2 args))
        (unfold swift_flag in refl))
      rw (convert_from-convert_from (drop 2 args)) refl

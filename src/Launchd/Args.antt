-- ===== src/Launchd/Args.antt =====
use d_inference.Prelude.{
  List, Text, Option, ◌∷◌, codes, if◌then◌else◌, some, [], drop, text_eq, none, ◌||◌,
}

-- `convert_rust_args_to_swift` (provider/src/main.rs): the arguments of the old command line as those of
-- the Swift one.

-- The Swift flag that a flag with a value becomes.
unfoldable pub swift_flag : Text → Option Text
swift_flag arg =
    if text_eq arg (codes "--coordinator") || text_eq arg (codes "--coordinator-url")
    then some (codes "--coordinator-url")
    else if text_eq arg (codes "--model")
    then some (codes "--model")
    else if text_eq arg (codes "--idle-timeout")
    then some (codes "--idle-timeout")
    else none

-- The loop over the arguments behind the verb: a flag takes the next argument, anything else is dropped.
unfoldable pub convert_from : List Text → List Text
unfolding swift_flag
convert_from [] = []
convert_from (arg ∷ []) = []
convert_from (arg ∷ value ∷ rest) = elim (swift_flag arg) [
  | some flag ↦ flag ∷ value ∷ convert_from rest
  | none ↦ convert_from (value ∷ rest)
]

unfoldable pub convert_rust_args_to_swift : List Text → Text → List Text
unfolding convert_from
convert_rust_args_to_swift rust_args binary_path =
    binary_path ∷ codes "start" ∷ codes "--foreground" ∷ convert_from (drop 2 rust_args)

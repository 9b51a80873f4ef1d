-- ===== src/Models/Names.antt =====
use d_inference.Prelude.{
  true, false, Text, codes, if◌then◌else◌, ◌∷◌, starts_with, ◌==◌, [], drop, ◌&&◌, length, ◌++◌,
}

-- The names of cached models and of their directories (provider/src/models.rs).

-- `name.replace("--", "/")`
unfoldable pub slashes : Text → Text
slashes [] = []
slashes (a ∷ []) = a ∷ []
slashes (a ∷ b ∷ s) = elim (a == b'-' && b == b'-') [
  | true ↦ b'/' ∷ slashes s
  | false ↦ a ∷ slashes (b ∷ s)
]

-- `id.replace('/', "--")`
unfoldable pub dashes : Text → Text
dashes [] = []
dashes (c ∷ s) = (if c == b'/' then codes "--" else c ∷ []) ++ dashes s

abbrev pub models_prefix : Text
models_prefix = codes "models--"

-- The id of the model in a directory: `strip_prefix("models--")`, or the whole name.
unfoldable pub model_name : Text → Text
unfolding slashes
model_name dir_name =
    slashes (
      if starts_with dir_name models_prefix then drop (length models_prefix) dir_name else dir_name)

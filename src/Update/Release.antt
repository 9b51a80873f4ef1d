-- ===== src/Update/Release.antt =====
use d_inference.Prelude.{
  true, false, Text, parse_u32, Bool, List, unwrap_or, ℕ, get_elem?, ltb, text_eq, ◌>>=◌, ◌∷◌, [],
  codes, ◌==◌, ◌||◌, not, ◌&&◌, is_empty,
}
use d_inference.Json.{JsonApi}

-- What the update reads of a release, and when a release is newer (provider/src/main.rs).

-- `info[key].as_str().unwrap_or("")`
module _ (json : JsonApi) where
  unfoldable pub release_string : json.Value → Text → Text
  release_string info key = unwrap_or (json.get info key >>= json.as_str) []

  -- `info["version"].as_str().unwrap_or("unknown")`
  unfoldable pub version_of : json.Value → Text
  version_of info = unwrap_or (json.get info (codes "version") >>= json.as_str) (codes "unknown")

  unfoldable pub is_swift_release : json.Value → Bool
  unfolding release_string
  is_swift_release info =
      text_eq (release_string info (codes "backend")) (codes "mlx-swift")
      || not (is_empty (release_string info (codes "metallib_hash")))

-- `text.split(c)`: there is one part at least.
abbrev grow : ℕ → List Text → List Text
grow c [] = (c ∷ []) ∷ []
grow c (part ∷ parts) = (c ∷ part) ∷ parts

unfoldable pub split : ℕ → Text → List Text
split separator [] = [] ∷ []
split separator (c ∷ s) = elim (c == separator) [
  | true ↦ [] ∷ split separator s
  | false ↦ grow c (split separator s)
]

-- The number in one part, 0 if the part is missing or is no number.
unfoldable pub version_part : List Text → ℕ → ℕ
unfolding parse_u32
version_part parts i = unwrap_or (get_elem? parts i >>= parse_u32) 0

-- `(a, b, c) > (x, y, z)`
unfoldable pub triple_gt : ℕ × ℕ × ℕ → ℕ × ℕ × ℕ → Bool
triple_gt (a, b, c) (x, y, z) = ltb x a || (a == x && (ltb y b || (b == y && ltb z c)))

unfoldable pub parse_version : Text → ℕ × ℕ × ℕ
unfolding split version_part
parse_version v =
    let parts = split b'.' v in (version_part parts 0, version_part parts 1, version_part parts 2)

unfoldable pub is_newer_version : Text → Text → Bool
unfolding parse_version triple_gt
is_newer_version current latest = triple_gt (parse_version latest) (parse_version current)

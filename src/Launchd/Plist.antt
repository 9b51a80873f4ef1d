-- ===== src/Launchd/Plist.antt =====
use d_inference.Launchd.Cut.{cut}
use d_inference.Launchd.Args.{convert_rust_args_to_swift}
use d_inference.Prelude.{
  List, Text, Option, codes, ℕ, ◌∷◌, if◌then◌else◌, none, ◌++◌, [], suc, ◌==◌, some, length, zero,
  is_empty,
}
-- `extract_program_arguments`, `render_launchd_plist`, `xml_escape` and the text that
-- `rewrite_launchd_plist_for_swift` writes (provider/src/main.rs).
use d_inference.Prelude.{◌>>=◌}

abbrev pub array_key : Text
array_key = codes "<key>ProgramArguments</key>"

abbrev pub array_open : Text
array_open = codes "<array>"

abbrev pub array_close : Text
array_close = codes "</array>"

abbrev pub string_open : Text
string_open = codes "<string>"

abbrev pub string_close : Text
string_close = codes "</string>"

unfoldable pub escape_byte : ℕ → Text
escape_byte c =
    if c == b'&'
    then codes "&amp;"
    else if c == b'<'
    then codes "&lt;"
    else if c == b'>'
    then codes "&gt;"
    else c ∷ []

unfoldable pub xml_escape : Text → Text
unfolding escape_byte
xml_escape [] = []
xml_escape (c ∷ s) = escape_byte c ++ xml_escape s

-- The text up to the body of the array of arguments, the body, and the text behind it with the
-- closing tag. Both functions below find the array like this.
pub record Located : Type 0 where
  pub before : Text
  pub body : Text
  pub after : Text

unfoldable pub locate : Text → Option Located
unfolding cut
locate plist = do
  found ← cut array_key plist
  opened ← cut array_open (found.1)
  closed ← cut array_close (opened.1)
  let before = found.0 ++ (array_key ++ (opened.0 ++ array_open))
  let after = array_close ++ closed.1
  some (record { before = before; body = closed.0; after = after })

-- The loop over the `<string>` elements of the body. Each round takes an element off, so that one
-- round more than the body has bytes is enough.
unfoldable pub strings : ℕ → Text → Option (List Text)
unfolding cut
strings zero body = none
strings (suc fuel) body = elim (cut string_open body) [
  | none ↦ some []
  | some (skipped, rest) ↦ elim (cut string_close rest) [
    | none ↦ none
    | some (value, behind) ↦ do args ← strings fuel behind; some (value ∷ args)
  ]
]

unfoldable pub extract_program_arguments : Text → Option (List Text)
unfolding locate strings
extract_program_arguments plist = do
  found ← locate plist
  args ← strings (suc (length (found.body))) (found.body)
  if is_empty args then none else some args

unfoldable pub rendered_strings : List Text → Text
unfolding xml_escape
rendered_strings [] = codes "    "
rendered_strings (arg ∷ args) =
    codes "        "
    ++ (string_open ++ (xml_escape arg ++ (string_close ++ (codes "\n" ++ rendered_strings args))))

unfoldable pub render_launchd_plist : List Text → Text → Option Text
unfolding locate rendered_strings
render_launchd_plist new_args plist = do
  found ← locate plist
  some (found.before ++ ((codes "\n" ++ rendered_strings new_args) ++ found.after))

-- The new text of the file, for the path of the binary.
unfoldable pub migrated : Text → Text → Option Text
unfolding extract_program_arguments render_launchd_plist convert_rust_args_to_swift
migrated binary_path original = do
  rust_args ← extract_program_arguments original
  render_launchd_plist (convert_rust_args_to_swift rust_args binary_path) original

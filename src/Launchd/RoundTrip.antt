-- ===== src/Launchd/RoundTrip.antt =====
use d_inference.Launchd.Plist.{
  rendered_strings, xml_escape, Located, locate, array_close, extract_program_arguments, migrated,
  render_launchd_plist,
}
use d_inference.Launchd.Options.{convert_rust_args_to_swift-convert}
use d_inference.Launchd.Args.{convert_rust_args_to_swift}
use d_inference.Launchd.Cut.{cut-passes}
use d_inference.Prelude.{
  Text, All, List, ◌∷◌, length, suc, [], ◌++◌, codes, ◌≡◌, some, ◌>>=◌, map, arith, false, ◌∙◌,
  refl, bind_inverts, ap, some_inj, is_empty, subst,
}
use d_inference.Launchd.Rendered.{
  untagged, strings-rendered, length-rendered, locate-Found, with_body, locate-with_body,
  cut-rendered,
}

-- What is read from a launchd file whose arguments were rendered (provider/src/main.rs).

-- What rendering writes, and what is found in it.
render_launchd_plist-Located :
    (args : List Text) (plist out : Text)
    → render_launchd_plist args plist ≡ some out
    → (l : Located) × (locate plist ≡ some l)
      × (locate out ≡ some (with_body l (codes "\n" ++ rendered_strings args)))
unfolding render_launchd_plist
render_launchd_plist-Located args plist out h =
    let (l, found, e) = bind_inverts (locate plist) _ out h in
    let body = codes "\n" ++ rendered_strings args in
    (
      l,
      found,
      subst (λ z. locate z ≡ some (with_body l body)) (some_inj e)
          (locate-with_body plist body l (locate-Found plist l found) (λ r.
            cut-passes b'<' (codes "/array>") (codes "\n")
              (rendered_strings args ++ (array_close ++ r)) (rendered_strings args) r
              (untagged (codes "\n") refl) (cut-rendered args r))),
    )

-- Arguments that are rendered into a launchd file, one of them at least, are read from the new file
-- in their order, each as its XML text.
pub extract_program_arguments-render :
    (args : List Text) (plist out : Text)
    → is_empty args ≡ false
    → render_launchd_plist args plist ≡ some out
    → extract_program_arguments out ≡ some (map xml_escape args)
unfolding extract_program_arguments
extract_program_arguments-render [] plist out some_args h = cc
extract_program_arguments-render (arg ∷ args) plist out some_args h =
    let (l, found, again) = render_launchd_plist-Located (arg ∷ args) plist out h in
    let body = codes "\n" ++ rendered_strings (arg ∷ args) in
    rw again rw
      (strings-rendered (arg ∷ args) (suc (length body))
        (omega (arith, length-rendered (arg ∷ args))))
      refl

-- Rendering into a file that was rendered gives what rendering into the first file gives.
render_launchd_plist-render :
    (args more : List Text) (plist out : Text)
    → render_launchd_plist args plist ≡ some out
    → render_launchd_plist more out ≡ render_launchd_plist more plist
unfolding render_launchd_plist
render_launchd_plist-render args more plist out h =
    let (l, found, again) = render_launchd_plist-Located args plist out h in rw again rw found refl

map_fixed : (args : List Text) → All (λ a. xml_escape a ≡ a) args → map xml_escape args ≡ args
map_fixed [] h = refl
map_fixed (a ∷ args) (e, h) = rw (map_fixed args h) rw e refl

-- A file that was migrated stays as it is when it is migrated again for the same binary, if escaping
-- leaves the arguments written into it as they are.
pub migrated-migrated :
    (binary plist out : Text) (args : List Text)
    → extract_program_arguments plist ≡ some args
    → All (λ a. xml_escape a ≡ a) (convert_rust_args_to_swift args binary)
    → migrated binary plist ≡ some out
    → migrated binary out ≡ some out
unfolding migrated
migrated-migrated binary plist out args old plain h =
    let new = convert_rust_args_to_swift args binary in
    let written =
      subst
        (λ z.
          (z >>= λ rust_args.
          render_launchd_plist (convert_rust_args_to_swift rust_args binary) plist)
          ≡ some out)
        old h in
    let again : extract_program_arguments out ≡ some new =
      extract_program_arguments-render new plist out (unfold convert_rust_args_to_swift in refl)
        written
      ∙ ap (λ z. some z) (map_fixed new plain) in
    rw again (
      ap (λ z. render_launchd_plist z out) (convert_rust_args_to_swift-convert args binary binary)
      ∙ render_launchd_plist-render new new plist out written
      ∙ written)

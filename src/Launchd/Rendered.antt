-- ===== src/Launchd/Rendered.antt =====
-- The places that `locate` finds, and the body that is rendered between them (provider/src/main.rs).
use d_inference.Launchd.Plist.{
  Located, array_close, escape_byte, locate, rendered_strings, strings, xml_escape, array_key,
  string_close, string_open, array_open,
}
use d_inference.Launchd.Cut.{
  cut-skips, cut-misses, cut, cut-passes, cut_again, cut_later, cut_shrinks,
}
use d_inference.Prelude.{
  Text, All, List, ℕ, ◌∷◌, All-append, length, suc, [], ◌++◌, ◌<◌, ◌≤◌, codes, ◌≡◌, some, ◌>>=◌,
  map, arith, zero, Bool, length-append, ◌==◌, false, if◌then◌else◌, ◌∙◌, refl, true, any,
  bind_inverts, ap, append_assoc, starts_with, some_inj, sym, any-All, Option-cases, none, inl, inr,
}

-- No byte of the text is the one that opens a tag.
abbrev IsUntagged : Text → Type 0
IsUntagged = All (λ c. (c == b'<') ≡ false)

pub untagged : (s : Text) → any (λ c. c == b'<') s ≡ false → IsUntagged s
untagged = any-All (λ c. c == b'<')

escape_byte-IsUntagged : (c : ℕ) → IsUntagged (escape_byte c)
unfolding escape_byte
escape_byte-IsUntagged c = go (c == b'&') (c == b'<') (c == b'>') refl
  where
    go :
        (a b d : Bool)
        → (c == b'<') ≡ b
        → IsUntagged (
            if a
            then codes "&amp;"
            else if b
            then codes "&lt;"
            else if d
            then codes "&gt;"
            else c ∷ [])
    go true b d e = untagged (codes "&amp;") refl
    go false true d e = untagged (codes "&lt;") refl
    go false false true e = untagged (codes "&gt;") refl
    go false false false e = (e, tt)

xml_escape-IsUntagged : (s : Text) → IsUntagged (xml_escape s)
unfolding xml_escape
xml_escape-IsUntagged [] = tt
xml_escape-IsUntagged (c ∷ s) =
    All-append (λ x. (x == b'<') ≡ false) (escape_byte c) (xml_escape s) (escape_byte-IsUntagged c)
      (xml_escape-IsUntagged s)

-- An element in front of the body is read off.
strings-element :
    (fuel : ℕ) (skipped value behind : Text)
    → IsUntagged skipped
    → IsUntagged value
    → strings (suc fuel) (skipped ++ (string_open ++ (value ++ (string_close ++ behind))))
      ≡ (strings fuel behind >>= λ args. some (value ∷ args))
unfolding strings
strings-element fuel skipped value behind hs hv =
    rw (cut-skips b'<' (codes "string>") skipped (value ++ (string_close ++ behind)) hs, strings) rw
      (cut-skips b'<' (codes "/string>") value behind hv) refl

strings_over : (fuel : ℕ) (s : Text) → IsUntagged s → strings (suc fuel) s ≡ some []
unfolding strings
strings_over fuel s h = rw (cut-misses b'<' (codes "string>") s h, strings) refl

strings_stop : (f : ℕ) (body : Text) → cut string_open body ≡ none → strings (suc f) body ≡ some []
unfolding strings
strings_stop f body e = rw (e, strings) refl

strings_open :
    (f : ℕ) (body a rest : Text)
    → cut string_open body ≡ some (a, rest)
    → cut string_close rest ≡ none
    → strings (suc f) body ≡ none
unfolding strings
strings_open f body a rest e k = rw (e, strings) rw k refl

strings_round :
    (f : ℕ) (body a rest v behind : Text)
    → cut string_open body ≡ some (a, rest)
    → cut string_close rest ≡ some (v, behind)
    → strings (suc f) body ≡ (strings f behind >>= λ args. some (v ∷ args))
unfolding strings
strings_round f body a rest v behind e k = rw (e, strings) rw k refl

-- One round more than the body has bytes is enough: further rounds change nothing.
strings_enough :
    (f g : ℕ) (body : Text) → length body < f → length body < g → strings f body ≡ strings g body
strings_enough zero g body hf hg = absurd (omega (arith, hf))
strings_enough (suc f) zero body hf hg = absurd (omega (arith, hg))
strings_enough (suc f) (suc g) body hf hg = elim (Option-cases (cut string_open body)) [
  | inl n ↦ strings_stop f body n ∙ sym (strings_stop g body n)
  | inr ((a, rest), e) ↦ elim (Option-cases (cut string_close rest)) [
    | inl n ↦ strings_open f body a rest e n ∙ sym (strings_open g body a rest e n)
    | inr ((v, behind), k) ↦
        strings_round f body a rest v behind e k
        ∙ ap (λ z. z >>= λ args. some (v ∷ args))
            (strings_enough f g behind
              (omega (
                arith,
                hf,
                cut_shrinks b'<' (codes "string>") body a rest e,
                cut_shrinks b'<' (codes "/string>") rest v behind k,
              ))
              (omega (
                arith,
                hg,
                cut_shrinks b'<' (codes "string>") body a rest e,
                cut_shrinks b'<' (codes "/string>") rest v behind k,
              )))
        ∙ sym (strings_round g body a rest v behind e k)
  ]
]

-- Enough rounds read back the rendered arguments, each escaped.
pub strings-rendered :
    (args : List Text) (fuel : ℕ)
    → length args < fuel
    → strings fuel (codes "\n" ++ rendered_strings args) ≡ some (map xml_escape args)
unfolding rendered_strings
strings-rendered args zero h = absurd (omega (arith, h))
strings-rendered [] (suc fuel) h =
    strings_over fuel (codes "\n    ") (untagged (codes "\n    ") refl)
strings-rendered (arg ∷ args) (suc fuel) h =
    strings-element fuel (codes "\n        ") (xml_escape arg) (codes "\n" ++ rendered_strings args)
      (untagged (codes "\n        ") refl) (xml_escape-IsUntagged arg)
    ∙ rw (strings-rendered args fuel (omega (arith, h))) refl

pub length-rendered : (args : List Text) → length args ≤ length (rendered_strings args)
unfolding rendered_strings
length-rendered [] = omega arith
length-rendered (arg ∷ args) = omega (
  arith,
  length-rendered args,
  length-append (xml_escape arg) (string_close ++ (codes "\n" ++ rendered_strings args)),
)

-- The three places that `locate` finds.
pub record Found (plist : Text) (l : Located) : Type 0 where
  from_key : Text × Text
  from_open : Text × Text
  pub behind : Text
  pub key : cut array_key plist ≡ some from_key
  opening : cut array_open (from_key.1) ≡ some from_open
  pub closing : cut array_close (from_open.1) ≡ some (l.body, behind)
  is_before : l.before ≡ from_key.0 ++ (array_key ++ (from_open.0 ++ array_open))
  is_after : l.after ≡ array_close ++ behind

pub locate-Found : (plist : Text) (l : Located) → locate plist ≡ some l → Found plist l
unfolding locate
locate-Found plist l h =
    let (k, key, h1) = bind_inverts (cut array_key plist) _ l h in
    let (o, opening, h2) = bind_inverts (cut array_open (k.1)) _ l h1 in
    let (c, closing, h3) = bind_inverts (cut array_close (o.1)) _ l h2 in
    record {
      from_key = k;
      from_open = o;
      behind = c.1;
      key = key;
      opening = opening;
      closing = closing ∙ ap (λ (z : Located). some (z.body, c.1)) (some_inj h3);
      is_before = ap (λ (z : Located). z.before) (sym (some_inj h3));
      is_after = ap (λ (z : Located). z.after) (sym (some_inj h3));
    }

abbrev pub with_body : Located → Text → Located
with_body l body = record l { body = body }

-- The same places are found around another body that is closed where it ends.
pub locate-with_body :
    (plist body : Text) (l : Located)
    → Found plist l
    → ((r : Text) → cut array_close (body ++ (array_close ++ r)) ≡ some (body, r))
    → locate (l.before ++ (body ++ l.after)) ≡ some (with_body l body)
unfolding locate
locate-with_body plist body l f h =
    rw (f.is_before, f.is_after) rw
      (
        joined,
        cut_again b'<' (codes "key>ProgramArguments</key>") plist (f.from_key.0) (f.from_key.1)
            (f.from_open.0 ++ (array_open ++ inner)) (f.key),
      )
      rw
      (cut_again b'<' (codes "array>") (f.from_key.1) (f.from_open.0) (f.from_open.1) inner
        (f.opening))
      rw (h (f.behind)) refl
  where
    inner : Text
    inner = body ++ (array_close ++ f.behind)

    joined :
        (f.from_key.0 ++ (array_key ++ (f.from_open.0 ++ array_open))) ++ inner
        ≡ f.from_key.0 ++ (array_key ++ (f.from_open.0 ++ (array_open ++ inner)))
    joined = simp append_assoc

-- So may a tag that is not looked for.
cut_over_tag :
    (tag s a b : Text)
    → starts_with ((b'<' ∷ tag) ++ s) array_close ≡ false
    → IsUntagged tag
    → cut array_close s ≡ some (a, b)
    → cut array_close ((b'<' ∷ tag) ++ s) ≡ some ((b'<' ∷ tag) ++ a, b)
cut_over_tag tag s a b e h f =
    cut_later array_close (tag ++ s) b'<' e (cut-passes b'<' (codes "/array>") tag s a b h f)

-- The closing tag of the array is found behind the rendered arguments.
pub cut-rendered :
    (args : List Text) (r : Text)
    → cut array_close (rendered_strings args ++ (array_close ++ r))
      ≡ some (rendered_strings args, r)
unfolding rendered_strings
cut-rendered [] r = cut-skips b'<' (codes "/array>") (codes "    ") r (untagged (codes "    ") refl)
cut-rendered (arg ∷ args) r =
    let shown = xml_escape arg in
    let rest = rendered_strings args ++ (array_close ++ r) in
    let closed = codes "</string>\n" ++ rendered_strings args in
    ap (λ z. cut array_close (codes "        <string>" ++ z))
      (append_assoc shown closed (array_close ++ r))
    ∙ cut-passes b'<' (codes "/array>") (codes "        ")
        (codes "<string>" ++ (shown ++ (codes "</string>\n" ++ rest)))
        (codes "<string>" ++ (shown ++ closed)) r (untagged (codes "        ") refl)
        (cut_over_tag (codes "string>") (shown ++ (codes "</string>\n" ++ rest)) (shown ++ closed) r
          refl (untagged (codes "string>") refl)
          (cut-passes b'<' (codes "/array>") shown (codes "</string>\n" ++ rest) closed r
            (xml_escape-IsUntagged arg)
            (cut_over_tag (codes "/string>\n") rest (rendered_strings args) r refl
              (untagged (codes "/string>\n") refl) (cut-rendered args r))))

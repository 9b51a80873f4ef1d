-- ===== src/Telemetry/Client/Endpoint.antt =====
-- The address that telemetry is sent to: `telemetry_ingest_endpoint`.
use d_inference.Prelude.{
  ◌≡◌, refl, sym, ap, ◌∙◌, inl, inr, Bool, true, false, ◌&&◌, Option, none, some, [], ◌∷◌, ◌++◌,
  append_assoc, arith, ◌==◌, if◌then◌else◌, Bool-cases, length, is_empty, length-append, Text,
  codes, text_eq, text_eq_refl, text_eq→eq, ℕ, suc, zero,
}

-- `trim_end_matches('/')`
unfoldable pub trim_end : Text → Text
trim_end [] = []
trim_end (c ∷ s) = let rest = trim_end s in if c == b'/' && is_empty rest then [] else c ∷ rest

unfoldable pub strip_prefix : Text → Text → Option Text
strip_prefix [] s = some s
strip_prefix (c ∷ p) [] = none
strip_prefix (c ∷ p) (d ∷ s) = let rest = strip_prefix p s in if c == d then rest else none

abbrev pub cons_some : ℕ → Option Text → Option Text
cons_some c none = none
cons_some c (some s) = some (c ∷ s)

unfoldable pub strip_suffix : Text → Text → Option Text
strip_suffix p [] = if is_empty p then some [] else none
strip_suffix p (c ∷ s) =
    let rest = strip_suffix p s in if text_eq p (c ∷ s) then some [] else cons_some c rest

abbrev pub otherwise : Text → Option Text → Text
otherwise s none = s
otherwise s (some t) = t

-- The scheme of the address, from `wss` to `https` or from `ws` to `http`.
abbrev pub http_scheme : Text → Option Text → Option Text → Text
http_scheme base none none = base
http_scheme base none (some rest) = codes "http://" ++ rest
http_scheme base (some rest) o = codes "https://" ++ rest

abbrev pub ingest_base : Text → Text
ingest_base trimmed =
    http_scheme trimmed (strip_prefix (codes "wss://") trimmed)
      (strip_prefix (codes "ws://") trimmed)

abbrev pub ingest_of : Text → Text
ingest_of base =
    trim_end (otherwise base (strip_suffix (codes "/ws/provider") base))
    ++ codes "/v1/telemetry/events"

unfoldable pub telemetry_ingest_endpoint : Text → Text
telemetry_ingest_endpoint coordinator_url = ingest_of (ingest_base (trim_end coordinator_url))

unfoldable pub slashes : ℕ → Text
slashes zero = []
slashes (suc n) = b'/' ∷ slashes n

trim_end-slashes : (n : ℕ) → trim_end (slashes n) ≡ []
unfolding trim_end slashes
trim_end-slashes zero = refl
trim_end-slashes (suc n) = rw (trim_end-slashes n) refl

nonempty : (s : Text) (c : ℕ) (rest : Text) → is_empty (s ++ c ∷ rest) ≡ false
nonempty [] c rest = refl
nonempty (d ∷ s) c rest = refl

kept_cons :
    (b : Bool) (d : ℕ) (r : Text)
    → is_empty r ≡ false
    → (if b && is_empty r then [] else d ∷ r) ≡ d ∷ r
kept_cons true d r h = rw h refl
kept_cons false d r h = refl

-- Text before a part of which something is left.
trim_end-append :
    (s t : Text) (c : ℕ) (rest : Text) → trim_end t ≡ c ∷ rest → trim_end (s ++ t) ≡ s ++ c ∷ rest
unfolding trim_end
trim_end-append [] t c rest h = h
trim_end-append (d ∷ s) t c rest h =
    let ih = trim_end-append s t c rest h in
    kept_cons (d == b'/') d (trim_end (s ++ t))
      (ap (λ (r : Text). is_empty r) ih ∙ nonempty s c rest)
    ∙ ap (λ (r : Text). d ∷ r) ih

trim_end-word : (n : ℕ) → trim_end (codes "/ws/provider" ++ slashes n) ≡ codes "/ws/provider"
trim_end-word n =
    trim_end-append (codes "/ws/provide") (b'r' ∷ slashes n) b'r' []
      (unfold trim_end in rw (trim_end-slashes n) refl)

strip_suffix_refl : (p : Text) → strip_suffix p p ≡ some []
unfolding strip_suffix
strip_suffix_refl [] = refl
strip_suffix_refl (c ∷ p) = rw (text_eq_refl (c ∷ p)) refl

longer : (p : Text) (c : ℕ) (s : Text) → text_eq p (c ∷ s ++ p) ≡ false
longer p c s = elim (Bool-cases (text_eq p (c ∷ s ++ p))) [
  | inl y ↦
      absurd (
        omega (arith, ap (λ (t : Text). length t) (text_eq→eq p (c ∷ s ++ p) y), length-append s p))
  | inr n ↦ n
]

strip_suffix-append : (s p : Text) → strip_suffix p (s ++ p) ≡ some s
unfolding strip_suffix
strip_suffix-append [] p = strip_suffix_refl p
strip_suffix-append (c ∷ s) p = rw (longer p c s, strip_suffix-append s p) refl

module _ (c : ℕ) (h : Text) (trimmed : trim_end (c ∷ h) ≡ c ∷ h) where
  abbrev host : Text
  host = c ∷ h

  at_endpoint :
      (scheme : Text)
      → trim_end (
          otherwise
            (scheme ++ (host ++ codes "/ws/provider"))
            (strip_suffix (codes "/ws/provider") (scheme ++ (host ++ codes "/ws/provider"))))
        ≡ scheme ++ host
  at_endpoint scheme =
      ap (λ (o : Option Text). trim_end (otherwise (scheme ++ (host ++ codes "/ws/provider")) o))
        (ap (strip_suffix (codes "/ws/provider"))
            (sym (append_assoc scheme host (codes "/ws/provider")))
          ∙ strip_suffix-append (scheme ++ host) (codes "/ws/provider"))
      ∙ trim_end-append scheme host c h trimmed

  trim_url :
      (scheme : Text) (n : ℕ)
      → trim_end (scheme ++ (host ++ (codes "/ws/provider" ++ slashes n)))
        ≡ scheme ++ (host ++ codes "/ws/provider")
  trim_url scheme n =
      trim_end-append scheme (host ++ (codes "/ws/provider" ++ slashes n)) c
        (h ++ codes "/ws/provider")
        (trim_end-append host (codes "/ws/provider" ++ slashes n) b'/' (codes "ws/provider")
          (trim_end-word n))

  -- Telemetry goes to the coordinator's own host: the address of its WebSocket for providers, over TLS
  -- or not and with any number of slashes behind it, gives that of the telemetry events on the same
  -- host, over HTTP with TLS or without. The host is not empty and does not end in a slash.
  telemetry_ingest_endpoint_lem :
      (n : ℕ)
      → (telemetry_ingest_endpoint (codes "wss://" ++ (host ++ (codes "/ws/provider" ++ slashes n)))
          ≡ (codes "https://" ++ host) ++ codes "/v1/telemetry/events")
        × (telemetry_ingest_endpoint
              (codes "ws://" ++ (host ++ (codes "/ws/provider" ++ slashes n)))
            ≡ (codes "http://" ++ host) ++ codes "/v1/telemetry/events")
  unfolding telemetry_ingest_endpoint strip_prefix
  telemetry_ingest_endpoint_lem n = (
    ap (λ (t : Text). ingest_of (ingest_base t)) (trim_url (codes "wss://") n)
        ∙ ap (λ (t : Text). t ++ codes "/v1/telemetry/events") (at_endpoint (codes "https://")),
    ap (λ (t : Text). ingest_of (ingest_base t)) (trim_url (codes "ws://") n)
        ∙ ap (λ (t : Text). t ++ codes "/v1/telemetry/events") (at_endpoint (codes "http://")),
  )

-- ===== src/Coordinator/Status.antt =====
-- Statuses and their canonical texts.
use d_inference.Prelude.{
  ◌≡◌, refl, sym, ap, ◌∙◌, Bool, Option, none, some, List, [], ◌∷◌, if◌then◌else◌, ◌>>=◌, is_empty,
  Text, codes, bind_inverts, some_inj, some_of_none,
}
use d_inference.Coordinator.StatusMap.{
  insert_all, lookup, last_of, or_else, or_else-none, lookup-insert_all,
}
use d_inference.Coordinator.Challenge.{
  StatusJson, Status, collect, string_value, bool_value, hashes_value, fields,
  build_status_canonical,
}

-- Distinct JSON values have distinct texts, and distinct contents make distinct values.
pub record IsInjective {V : Type 0} (j : StatusJson V) : Type 0 where
  pub string_inj : (s t : Text) → j.string s ≡ j.string t → s ≡ t
  pub bool_inj : (a b : Bool) → j.bool a ≡ j.bool b → a ≡ b
  pub to_value_inj :
      (m n : List (Text × Text)) (v : V) → j.to_value m ≡ some v → j.to_value n ≡ some v → m ≡ n
  pub to_vec_inj :
      (m n : List (Text × V)) (b : Text) → j.to_vec m ≡ some b → j.to_vec n ≡ some b → m ≡ n

-- A text that is left out when it is empty.
abbrev present : Option Text → Option Text
present none = none
present (some t) = if is_empty t then none else some t

-- Two statuses agree on every field; a missing text is the same as an empty one, and hash maps are
-- compared by their sorted entries.
pub record Agree (s t : Status) : Type 0 where
  pub nonce : s.nonce ≡ t.nonce
  pub timestamp : s.timestamp ≡ t.timestamp
  pub hypervisor_active : s.hypervisor_active ≡ t.hypervisor_active
  pub rdma_disabled : s.rdma_disabled ≡ t.rdma_disabled
  pub sip_enabled : s.sip_enabled ≡ t.sip_enabled
  pub secure_boot_enabled : s.secure_boot_enabled ≡ t.secure_boot_enabled
  pub binary_hash : present s.binary_hash ≡ present t.binary_hash
  pub active_model_hash : present s.active_model_hash ≡ present t.active_model_hash
  pub python_hash : present s.python_hash ≡ present t.python_hash
  pub runtime_hash : present s.runtime_hash ≡ present t.runtime_hash
  pub grpc_binary_hash : present s.grpc_binary_hash ≡ present t.grpc_binary_hash
  pub template_hashes : collect s.template_hashes ≡ collect t.template_hashes
  pub model_hashes : collect s.model_hashes ≡ collect t.model_hashes

module _ {V : Type 0} (j : StatusJson V) (inj : IsInjective j) where
  bool_value_inj : (a b : Option Bool) → bool_value j a ≡ bool_value j b → a ≡ b
  bool_value_inj none none h = refl
  bool_value_inj none (some b) h = some_of_none (sym h)
  bool_value_inj (some a) none h = some_of_none h
  bool_value_inj (some a) (some b) h = ap (λ (x : Bool). some x) (inj.bool_inj a b (some_inj h))

  string_value_inj :
      (a b : Option Text) → string_value j a ≡ string_value j b → present a ≡ present b
  string_value_inj none none h = refl
  string_value_inj none (some []) h = refl
  string_value_inj none (some (c ∷ b)) h = some_of_none (sym h)
  string_value_inj (some []) none h = refl
  string_value_inj (some []) (some []) h = refl
  string_value_inj (some []) (some (c ∷ b)) h = some_of_none (sym h)
  string_value_inj (some (c ∷ a)) none h = some_of_none h
  string_value_inj (some (c ∷ a)) (some []) h = some_of_none h
  string_value_inj (some (c ∷ a)) (some (d ∷ b)) h =
      ap (λ (x : Text). some x) (inj.string_inj (c ∷ a) (d ∷ b) (some_inj h))

  some_value_inverts :
      (o : Option V) (w : Option V)
      → (do v ← o; some (some v)) ≡ some w
      → (v : V) × (o ≡ some v) × (w ≡ some v)
  some_value_inverts none w h = some_of_none (sym h)
  some_value_inverts (some v) w h = (v, refl, sym (some_inj h))

  hashes_value_inj :
      (m n : List (Text × Text)) (w : Option V)
      → hashes_value j m ≡ some w
      → hashes_value j n ≡ some w
      → collect m ≡ collect n
  hashes_value_inj [] [] w hm hn = refl
  hashes_value_inj [] (e ∷ n) w hm hn =
      let (v, made, is_v) = some_value_inverts (j.to_value (collect (e ∷ n))) w hn in
      some_of_none (sym is_v ∙ sym (some_inj hm))
  hashes_value_inj (d ∷ m) [] w hm hn =
      let (v, made, is_v) = some_value_inverts (j.to_value (collect (d ∷ m))) w hm in
      some_of_none (sym is_v ∙ sym (some_inj hn))
  hashes_value_inj (d ∷ m) (e ∷ n) w hm hn =
      let (v, made, is_v) = some_value_inverts (j.to_value (collect (d ∷ m))) w hm in
      let (u, made', is_u) = some_value_inverts (j.to_value (collect (e ∷ n))) w hn in
      inj.to_value_inj _ _ v made (made' ∙ sym is_u ∙ is_v)

  -- What a canonical text was made of.
  canonical_of :
      (s : Status) (b : Text)
      → build_status_canonical j s ≡ some b
      → (t m : Option V) × (hashes_value j s.template_hashes ≡ some t)
        × (hashes_value j s.model_hashes ≡ some m)
        × (j.to_vec (insert_all [] (fields j s t m)) ≡ some b)
  unfolding build_status_canonical
  canonical_of s b h =
      let (t, made, rest) = bind_inverts (hashes_value j s.template_hashes) _ b h in
      let (m, made', text) = bind_inverts (hashes_value j s.model_hashes) _ b rest in
      (t, m, made, made', text)

  -- Equal maps have equal values under a key.
  field :
      (k : Text) (f g : List (Text × Option V))
      → insert_all [] f ≡ insert_all [] g
      → last_of k f none ≡ last_of k g none
  field k f g e = sym (lookup-insert_all k f []) ∙ ap (lookup k) e ∙ lookup-insert_all k g []

  string_field :
      (a b : Option Text)
      → or_else (string_value j a) none ≡ or_else (string_value j b) none
      → present a ≡ present b
  string_field a b h =
      string_value_inj a b
        (sym (or_else-none (string_value j a)) ∙ h ∙ or_else-none (string_value j b))

  bool_field :
      (a b : Option Bool) → or_else (bool_value j a) none ≡ or_else (bool_value j b) none → a ≡ b
  bool_field a b h =
      bool_value_inj a b (sym (or_else-none (bool_value j a)) ∙ h ∙ or_else-none (bool_value j b))

  hashes_field :
      (m n : List (Text × Text)) (v w : Option V)
      → hashes_value j m ≡ some v
      → hashes_value j n ≡ some w
      → or_else v none ≡ or_else w none
      → collect m ≡ collect n
  hashes_field m n v w hm hn h =
      let same = sym (or_else-none v) ∙ h ∙ or_else-none w in
      hashes_value_inj m n v hm (hn ∙ ap (λ (x : Option V). some x) (sym same))

  -- Two statuses have the same canonical text only if they agree on every field, where a missing text is
  -- an empty one and hash maps are compared by their sorted entries. JSON maps and values are determined
  -- by their texts and contents.
  pub build_status_canonical-Agree :
      (s t : Status) (b : Text)
      → build_status_canonical j s ≡ some b
      → build_status_canonical j t ≡ some b
      → Agree s t
  build_status_canonical-Agree s t b hs ht =
      let (st, sm, st_made, sm_made, s_text) = canonical_of s b hs in
      let (tt, tm, tt_made, tm_made, t_text) = canonical_of t b ht in
      let e = inj.to_vec_inj _ _ b s_text t_text in
      let f = fields j s st sm in
      let g = fields j t tt tm in
      record {
        nonce = inj.string_inj _ _ (some_inj (field (codes "nonce") f g e));
        timestamp = inj.string_inj _ _ (some_inj (field (codes "timestamp") f g e));
        hypervisor_active = bool_field _ _ (field (codes "hypervisor_active") f g e);
        rdma_disabled = bool_field _ _ (field (codes "rdma_disabled") f g e);
        sip_enabled = bool_field _ _ (field (codes "sip_enabled") f g e);
        secure_boot_enabled = bool_field _ _ (field (codes "secure_boot_enabled") f g e);
        binary_hash = string_field _ _ (field (codes "binary_hash") f g e);
        active_model_hash = string_field _ _ (field (codes "active_model_hash") f g e);
        python_hash = string_field _ _ (field (codes "python_hash") f g e);
        runtime_hash = string_field _ _ (field (codes "runtime_hash") f g e);
        grpc_binary_hash = string_field _ _ (field (codes "grpc_binary_hash") f g e);
        template_hashes =
            hashes_field _ _ st tt st_made tt_made (field (codes "template_hashes") f g e);
        model_hashes = hashes_field _ _ sm tm sm_made tm_made (field (codes "model_hashes") f g e);
      }

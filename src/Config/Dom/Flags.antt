-- ===== src/Config/Dom/Flags.antt =====
-- The flags that say whether a file has to be saved: a document without changes is not dirty.
use recording_agent_continuo.Prelude.{
  ℕ, length, ltb, ◌==◌, Bool, true, false, not, ◌&&◌, ◌||◌, ◌≡◌, refl, ◌∙◌, Option, none, some,
  Bool-cases, inl, inr, List, [], ◌∷◌, ◌>>=◌, Yields, Yields->>=,
}
use recording_agent_continuo.Prelude.Text.{Text, codes, text_eq}
use recording_agent_continuo.Config.Dom.{
  Mxml, CameraDef, set_found, set_data, du_set_child_new_data, set_children, recorder_params,
  patch_recorder_params, camera_params, camdef_of, patch_found, patch_named, patch_nodes,
  patch_camdefs,
}
use recording_agent_continuo.Config.Dom.Accept.{accept_cameras, unless_matched}

-- A result that is not dirty is the document that was given.
abbrev pub IsSound : {D : Type 0} → D → (dirty : Bool) → D → Type 0
IsSound old dirty new = dirty ≡ false → new ≡ old

abbrev pub IsSoundPair : {D : Type 0} → D → D × Bool → Type 0
IsSoundPair old r = IsSound old r.1 r.0

abbrev pub IsSoundTriple : {D A : Type 0} → D → D × Bool × A → Type 0
IsSoundTriple old r = IsSound old r.1 r.0

pub both-IsSound :
    {D : Type 0} (old mid new : D) (a b : Bool)
    → IsSound old a mid
    → IsSound mid b new
    → IsSound old (a || b) new
both-IsSound old mid new true b h k e = absurd cc
both-IsSound old mid new false b h k e = k e ∙ h refl

module _ {D N : Type 0} (m : Mxml D N) where
  set_found-IsSound :
      (n : N) (cur : Option Text) (v : Text) (d : D)
      → Yields (IsSoundPair d) (set_found m n cur v d)
  unfolding set_found
  set_found-IsSound n none v d = tt
  set_found-IsSound n (some cur) v d = elim (Bool-cases (text_eq v cur)) [
    | inl same ↦ rw same (λ e. refl)
    | inr other ↦ rw other (λ e. absurd cc)
  ]

  set_data-IsSound : (n : Option N) (v : Text) (d : D) → Yields (IsSoundPair d) (set_data m n v d)
  unfolding set_data
  set_data-IsSound none v d = λ e. refl
  set_data-IsSound (some n) v d = set_found-IsSound n (m.value d n) v d

  set_children-IsSound :
      (node : N) (ps : List (Text × Text)) (d : D)
      → Yields (IsSoundPair d) (set_children m node ps d)
  unfolding set_children du_set_child_new_data
  set_children-IsSound node [] d = λ e. refl
  set_children-IsSound node ((tag, v) ∷ ps) d =
      Yields->>= (IsSoundPair d) (IsSoundPair d) (set_data m (m.find d node tag) v d) _
        (set_data-IsSound (m.find d node tag) v d)
        (λ a one.
          Yields->>= (IsSoundPair a.0) (IsSoundPair d) (set_children m node ps a.0) _
            (set_children-IsSound node ps a.0) (λ b more. both-IsSound d a.0 b.0 a.1 b.1 one more))

  pub patch_recorder_params-IsSound :
      (sn loco : Text) (d : D) → Yields (IsSoundPair d) (patch_recorder_params m sn loco d)
  unfolding patch_recorder_params
  patch_recorder_params-IsSound sn loco d =
      set_children-IsSound (m.root d) (recorder_params sn loco) d

  module _ (same_name : Text → Text → Bool) where
    patch_found-IsSound :
        (node : N) (c : Option CameraDef) (d : D)
        → Yields (IsSoundTriple d) (patch_found m same_name node c d)
    unfolding patch_found
    patch_found-IsSound node none d = λ e. refl
    patch_found-IsSound node (some c) d =
        Yields->>= (IsSoundPair d) (IsSoundTriple d) (set_children m node (camera_params c) d) _
          (set_children-IsSound node (camera_params c) d) (λ a one. one)

    patch_named-IsSound :
        (node : N) (n : Option N) (uc : List CameraDef) (d : D)
        → Yields (IsSoundTriple d) (patch_named m same_name node n uc d)
    unfolding patch_named
    patch_named-IsSound node none uc d = λ e. refl
    patch_named-IsSound node (some n) uc d = found (camdef_of m same_name (m.value d n) uc)
      where
        found :
            (o : Option (Option CameraDef))
            → Yields (IsSoundTriple d) (o >>= λ c. patch_found m same_name node c d)
        found none = tt
        found (some c) = patch_found-IsSound node c d

    patch_nodes-IsSound :
        (nodes : List N) (uc : List CameraDef) (d : D)
        → Yields (IsSoundTriple d) (patch_nodes m same_name nodes uc d)
    unfolding patch_nodes
    patch_nodes-IsSound [] uc d = λ e. refl
    patch_nodes-IsSound (node ∷ nodes) uc d =
        let n = m.find d node (codes "name") in
        Yields->>= (IsSoundTriple d) (IsSoundTriple d) (patch_named m same_name node n uc d) _
          (patch_named-IsSound node n uc d)
          (λ a one.
            Yields->>= (IsSoundTriple a.0) (IsSoundTriple d) (patch_nodes m same_name nodes uc a.0)
              _ (patch_nodes-IsSound nodes uc a.0)
              (λ b more. both-IsSound d a.0 b.0 a.1 b.1 one more))

    pub patch_camdefs-IsSound :
        (uc : List CameraDef) (d : D) → Yields (IsSoundTriple d) (patch_camdefs m same_name uc d)
    unfolding patch_camdefs
    patch_camdefs-IsSound uc d =
        Yields->>= (IsSoundTriple d) (IsSoundTriple d) (patch_nodes m same_name (m.cameras d) uc d)
          _ (patch_nodes-IsSound (m.cameras d) uc d)
          (λ a one. both-IsSound d a.0 a.0 a.1 (not (a.2 == length uc)) one (λ e. refl))

    module _ (load_string : Text → Option D) (fuel : ℕ) where
      unless_matched-IsSound :
          (n : ℕ) (uc : List CameraDef) (d : D) (r : D × Bool × ℕ)
          → IsSoundTriple d r
          → Yields (IsSoundTriple d) (unless_matched m load_string same_name fuel n uc r)
      unfolding unless_matched
      unless_matched-IsSound n uc d (d1, dirty, matched) h = elim (Bool-cases (matched == n)) [
        | inl all ↦ rw all h
        | inr few ↦ rw few (λ e. absurd cc)
      ]

      pub accept_cameras-IsSound :
          (uc : List CameraDef) (d : D)
          → Yields (IsSoundTriple d) (accept_cameras m load_string same_name fuel uc d)
      unfolding accept_cameras
      accept_cameras-IsSound uc d =
          let n = length (m.cameras d) in
          elim (Bool-cases (ltb 0 (length uc) && (n == length uc))) [
            | inl same ↦ rw same (
                Yields->>= (IsSoundTriple d) (IsSoundTriple d) (patch_camdefs m same_name uc d)
                  (unless_matched m load_string same_name fuel n uc) (patch_camdefs-IsSound uc d)
                  (λ r h. unless_matched-IsSound n uc d r h))
            | inr other ↦ rw other (λ e. absurd cc)
          ]

-- ===== src/Config/Xml/Values.antt =====
-- The values of the cameras' fields once a configuration file has been read.
use recording_agent_continuo.Prelude.{
  ℕ, suc, ◌+◌, ◌-◌, ◌*◌, ◌<◌, ◌≤◌, ◌==◌, length, take, false, ◌≡◌, ◌≢◌, refl, ap, ◌∙◌, List, [],
  ◌∷◌, ◌++◌, set_at_same, set_at_other, All, arith,
}
use recording_agent_continuo.Prelude.Text.{Text}
use recording_agent_continuo.Config.Xml.Document.{
  Field, CameraElement, store_field, store_fields, store_cameras,
}

-- A field whose address lies in the first camera's structure.
abbrev pub IsInside : (base size : ℕ) → Field → Type 0
IsInside base size f = (base ≤ f.address) × (f.address < base + size)

abbrev pub AreInside : (base size : ℕ) → CameraElement → Type 0
AreInside base size c = All (IsInside base size) c.fields

abbrev pub IsElsewhere : (address : ℕ) → Field → Type 0
IsElsewhere address f = f.address ≢ address

store_fields-elsewhere :
    (fs : List Field) (offset address : ℕ) (vs : ℕ → Text)
    → All (IsElsewhere address) fs
    → store_fields offset fs vs (address + offset) ≡ vs (address + offset)
store_fields-elsewhere [] offset address vs h = refl
store_fields-elsewhere (f ∷ fs) offset address vs h =
    let apart : (f.address + offset == address + offset) ≡ false = let ne = h.0 in ground arith in
    store_fields-elsewhere fs offset address (store_field offset f vs) h.1
    ∙ set_at_other (f.address + offset) (address + offset) (take (f.param.max_val_len - 1) f.text)
        vs apart

-- A field of a camera that no later field of it overwrites.
store_fields-field :
    (before : List Field) (f : Field) (later : List Field) (offset : ℕ) (vs : ℕ → Text)
    → All (IsElsewhere f.address) later
    → store_fields offset (before ++ f ∷ later) vs (f.address + offset)
      ≡ take (f.param.max_val_len - 1) f.text
store_fields-field [] f later offset vs h =
    store_fields-elsewhere later offset f.address (store_field offset f vs) h
    ∙ set_at_same (f.address + offset) (take (f.param.max_val_len - 1) f.text) vs
store_fields-field (g ∷ before) f later offset vs h =
    store_fields-field before f later offset (store_field offset g vs) h

module _ (base size : ℕ) where
  store_fields-below :
      (fs : List Field) (offset x : ℕ) (vs : ℕ → Text)
      → All (IsInside base size) fs
      → x < base + offset
      → store_fields offset fs vs x ≡ vs x
  store_fields-below [] offset x vs h lt = refl
  store_fields-below (f ∷ fs) offset x vs h lt =
      let from = h.0.0 in
      let apart : (f.address + offset == x) ≡ false = ground arith in
      store_fields-below fs offset x (store_field offset f vs) h.1 lt
      ∙ set_at_other (f.address + offset) x (take (f.param.max_val_len - 1) f.text) vs apart

  store_cameras-below :
      (cs : List CameraElement) (offset x : ℕ) (vs : ℕ → Text)
      → All (AreInside base size) cs
      → x < base + offset
      → store_cameras size offset cs vs x ≡ vs x
  store_cameras-below [] offset x vs h lt = refl
  store_cameras-below (c ∷ cs) offset x vs h lt =
      store_cameras-below cs (offset + size) x (store_fields offset c.fields vs) h.1 (omega arith)
      ∙ store_fields-below c.fields offset x vs h.0 lt

  pub store_cameras-field :
      (cs : List CameraElement) (c : CameraElement) (rest : List CameraElement)
      (before : List Field) (f : Field) (later : List Field) (offset : ℕ) (vs : ℕ → Text)
      → c.fields ≡ before ++ f ∷ later
      → All (IsElsewhere f.address) later
      → f.address < base + size
      → All (AreInside base size) rest
      → store_cameras size offset (cs ++ c ∷ rest) vs (f.address + (offset + length cs * size))
        ≡ take (f.param.max_val_len - 1) f.text
  store_cameras-field [] c rest before f later offset vs e apart lt h =
      let here : f.address + (offset + 0 * size) ≡ f.address + offset = omega arith in
      rw here (
        store_cameras-below rest (offset + size) (f.address + offset)
          (store_fields offset c.fields vs) h (omega arith)
        ∙ ap (λ fs. store_fields offset fs vs (f.address + offset)) e
        ∙ store_fields-field before f later offset vs apart)
  store_cameras-field (d ∷ cs) c rest before f later offset vs e apart lt h =
      let there : f.address + (offset + suc (length cs) * size)
          ≡ f.address + (offset + size + length cs * size) =
        grind arith in
      rw there (
        store_cameras-field cs c rest before f later (offset + size)
          (store_fields offset d.fields vs) e apart lt h)

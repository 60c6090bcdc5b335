-- ===== src/Config/Xml/Cameras.antt =====
-- What a reader stores for the cameras of a configuration file.
use recording_agent_continuo.Prelude.{
  ℕ, zero, suc, ◌+◌, ◌-◌, ◌<◌, leb, length, length-append, take, true, false, ◌≡◌, refl, sym, ap,
  ◌∙◌, Option, none, some, if◌then◌else◌, List, [], ◌∷◌, ◌++◌, set_at, All, arith, append-nil,
  append_assoc,
}
use recording_agent_continuo.Prelude.Text.{Text, codes}
use recording_agent_continuo.Config.Xml.{
  Param, Reader, Event, start_of, end_of, characters, buffer_size, find_param, trim, param_match,
  reset_char_data_buffer, store_trimmed, process_value, process_param, process_char_data_buffer,
  enter, next_offset, leave, then_do, start_element, end_element, char_data, handle, handle_all,
  ◌>>=◌,
}
use recording_agent_continuo.Config.Xml.Trim.{trim-IsTrimmed}
use recording_agent_continuo.Config.Xml.Document.{
  Field, CameraElement, join, pieces_then, field_then, fields_then, camera_then, cameras_then,
  store_field, store_fields, store_cameras, IsField, IsCameraElement, between,
}

-- The reader inside an element whose text is kept.
abbrev pub grabbing : List Param → Param → (level offset : ℕ) → Text → (ℕ → Text) → Reader
grabbing params p level offset buffer vs = record {
  params = params;
  grab_next_value = true;
  cur_param = some p;
  cur_level = level;
  cur_offset = offset;
  char_data_buffer = buffer;
  overflow = false;
  values = vs;
}

module _ (params : List Param) where
  pub pieces-between :
      (ss : List Text) (rest : List Event) (p : Option Param) (level offset : ℕ) (vs : ℕ → Text)
      → handle_all (pieces_then ss rest) (between params p level offset vs)
        ≡ handle_all rest (between params p level offset vs)
  unfolding handle_all handle char_data
  pieces-between [] rest p level offset vs = refl
  pieces-between (s ∷ ss) rest p level offset vs = pieces-between ss rest p level offset vs

  pub piece-grabbing :
      (s b : Text) (rest : List Event) (p : Param) (level offset : ℕ) (vs : ℕ → Text)
      → length s + length b < buffer_size
      → handle_all (characters s ∷ rest) (grabbing params p level offset b vs)
        ≡ handle_all rest (grabbing params p level offset (b ++ s) vs)
  unfolding handle_all handle char_data
  piece-grabbing s b rest p level offset vs h =
      let small : leb buffer_size (length s + length b) ≡ false = ground arith in rw small refl

  pieces-grabbing :
      (ss : List Text) (b : Text) (rest : List Event) (p : Param) (level offset : ℕ) (vs : ℕ → Text)
      → length b + length (join ss) < buffer_size
      → handle_all (pieces_then ss rest) (grabbing params p level offset b vs)
        ≡ handle_all rest (grabbing params p level offset (b ++ join ss) vs)
  pieces-grabbing [] b rest p level offset vs h =
      ap (λ t. handle_all rest (grabbing params p level offset t vs)) (sym (append-nil b))
  pieces-grabbing (s ∷ ss) b rest p level offset vs h =
      piece-grabbing s b (pieces_then ss rest) p level offset vs
        (omega (arith, length-append s (join ss)))
      ∙ pieces-grabbing ss (b ++ s) rest p level offset vs
          (omega (arith, length-append s (join ss), length-append b s))
      ∙ ap (λ t. handle_all rest (grabbing params p level offset t vs)) (append_assoc b s (join ss))

  take-nil : (n : ℕ) → take {A = ℕ} n [] ≡ []
  take-nil zero = refl
  take-nil (suc n) = refl

  process_value-trim :
      (a : ℕ) (p : Param) (offset : ℕ) (b v : Text) (r : Reader)
      → trim b ≡ some v
      → process_value (some a) p offset b r
        ≡ some (record r { values = set_at (a + offset) (take (p.max_val_len - 1) v) r.values })
  unfolding process_value store_trimmed
  process_value-trim a p offset [] v r h =
      let empty : [] ≡ v = unfold trim in cc h in
      ap (λ t. some (record r { values = set_at (a + offset) t r.values }))
        (sym (take-nil (p.max_val_len - 1)) ∙ ap (take (p.max_val_len - 1)) empty)
  process_value-trim a p offset (c ∷ cs) v r h = rw h refl

  pub start-value :
      (name : Text) (p : Param) (a : ℕ) (rest : List Event) (q : Option Param) (level offset : ℕ)
      (vs : ℕ → Text)
      → find_param level name params ≡ some p
      → p.value ≡ some a
      → handle_all (start_of name ∷ rest) (between params q level offset vs)
        ≡ handle_all rest (grabbing params p (suc level) offset [] vs)
  unfolding handle_all handle start_element process_char_data_buffer enter reset_char_data_buffer
      param_match
  start-value name p a rest q level offset vs found addressed = rw (found, addressed) refl

  process-field :
      (f : Field) (offset : ℕ) (vs : ℕ → Text)
      → IsField params f
      → process_char_data_buffer (grabbing params f.param 3 offset (join f.pieces) vs)
        ≡ some (grabbing params f.param 3 offset (join f.pieces) (store_field offset f vs))
  unfolding process_char_data_buffer process_param
  process-field f offset vs h =
      let r = grabbing params f.param 3 offset (join f.pieces) vs in
      ap
        (λ o.
          process_value o f.param (if f.param.is_per_camera then offset else 0) (join f.pieces) r)
        h.addressed
      ∙ ap (λ c. process_value (some f.address) f.param (if c then offset else 0) (join f.pieces) r)
          h.per_camera
      ∙ process_value-trim f.address f.param offset (join f.pieces) f.text r
          (trim-IsTrimmed (join f.pieces) f.text h.trimmed)

  leave-field :
      (f : Field) (offset : ℕ) (b : Text) (vs : ℕ → Text)
      → IsField params f
      → leave f.param.name (grabbing params f.param 3 offset b vs)
        ≡ between params (some f.param) 2 offset vs
  unfolding leave next_offset reset_char_data_buffer param_match
  leave-field f offset b vs h = rw (h.found, h.named) refl

  end-field :
      (f : Field) (rest : List Event) (offset : ℕ) (vs : ℕ → Text)
      → IsField params f
      → handle_all
          (end_of f.param.name ∷ rest)
          (grabbing params f.param 3 offset (join f.pieces) vs)
        ≡ handle_all rest (between params (some f.param) 2 offset (store_field offset f vs))
  unfolding handle_all handle end_element
  end-field f rest offset vs h =
      ap (λ o. then_do (leave f.param.name) o >>= handle_all rest) (process-field f offset vs h)
      ∙ ap (handle_all rest) (leave-field f offset (join f.pieces) (store_field offset f vs) h)

  read-field :
      (f : Field) (rest : List Event) (p : Option Param) (offset : ℕ) (vs : ℕ → Text)
      → IsField params f
      → handle_all (field_then f rest) (between params p 2 offset vs)
        ≡ handle_all rest (between params (some f.param) 2 offset (store_field offset f vs))
  read-field f rest p offset vs h =
      let after = end_of f.param.name ∷ pieces_then f.gap rest in
      start-value f.param.name f.param f.address (pieces_then f.pieces after) p 2 offset vs h.found
        h.addressed
      ∙ pieces-grabbing f.pieces [] after f.param 3 offset vs (omega (arith, h.short))
      ∙ end-field f (pieces_then f.gap rest) offset vs h
      ∙ pieces-between f.gap rest (some f.param) 2 offset (store_field offset f vs)

  -- The parameter that was matched last.
  abbrev last_param : Option Param → List Field → Option Param
  last_param p [] = p
  last_param p (f ∷ fs) = last_param (some f.param) fs

  read-fields :
      (fs : List Field) (rest : List Event) (p : Option Param) (offset : ℕ) (vs : ℕ → Text)
      → All (IsField params) fs
      → handle_all (fields_then fs rest) (between params p 2 offset vs)
        ≡ handle_all rest (between params (last_param p fs) 2 offset (store_fields offset fs vs))
  read-fields [] rest p offset vs h = refl
  read-fields (f ∷ fs) rest p offset vs h =
      read-field f (fields_then fs rest) p offset vs h.0
      ∙ read-fields fs rest (some f.param) offset (store_field offset f vs) h.1

  module _ (camera : Param) (found : find_param 1 (codes "camera") params ≡ some camera)
      (plain : camera.value ≡ none) where
    start-camera :
        (rest : List Event) (p : Option Param) (offset : ℕ) (vs : ℕ → Text)
        → handle_all (start_of (codes "camera") ∷ rest) (between params p 1 offset vs)
          ≡ handle_all rest (between params (some camera) 2 offset vs)
    unfolding handle_all handle start_element process_char_data_buffer enter reset_char_data_buffer
        param_match
    start-camera rest p offset vs = rw (found, plain) refl

    end-camera :
        (rest : List Event) (p : Option Param) (offset : ℕ) (vs : ℕ → Text)
        → handle_all (end_of (codes "camera") ∷ rest) (between params p 2 offset vs)
          ≡ handle_all rest (between params (some camera) 1 (offset + camera.max_val_len) vs)
    unfolding handle_all handle end_element process_char_data_buffer leave next_offset
        reset_char_data_buffer param_match
    end-camera rest p offset vs = rw found refl

    read-camera :
        (c : CameraElement) (rest : List Event) (p : Option Param) (offset : ℕ) (vs : ℕ → Text)
        → IsCameraElement params c
        → handle_all (camera_then c rest) (between params p 1 offset vs)
          ≡ handle_all rest (
              between params
                (some camera)
                1
                (offset + camera.max_val_len)
                (store_fields offset c.fields vs))
    read-camera c rest p offset vs h =
        let after = end_of (codes "camera") ∷ pieces_then c.gap rest in
        let stored = store_fields offset c.fields vs in
        start-camera (pieces_then c.gap_inside (fields_then c.fields after)) p offset vs
        ∙ pieces-between c.gap_inside (fields_then c.fields after) (some camera) 2 offset vs
        ∙ read-fields c.fields after (some camera) offset vs h
        ∙ end-camera (pieces_then c.gap rest) (last_param (some camera) c.fields) offset stored
        ∙ pieces-between c.gap rest (some camera) 1 (offset + camera.max_val_len) stored

    pub read-cameras :
        (cs : List CameraElement) (rest : List Event) (p : Option Param) (offset : ℕ)
        (vs : ℕ → Text)
        → All (IsCameraElement params) cs
        → (end_param : Option Param) × (end_offset : ℕ) × (handle_all
              (cameras_then cs rest)
              (between params p 1 offset vs)
            ≡ handle_all rest (
                between params end_param 1 end_offset
                  (store_cameras camera.max_val_len offset cs vs)))
    read-cameras [] rest p offset vs h = (p, offset, refl)
    read-cameras (c ∷ cs) rest p offset vs h =
        let (q, o, e) =
          read-cameras cs rest (some camera) (offset + camera.max_val_len)
            (store_fields offset c.fields vs) h.1 in
        (q, o, read-camera c (cameras_then cs rest) p offset vs h.0 ∙ e)

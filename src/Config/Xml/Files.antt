-- ===== src/Config/Xml/Files.antt =====
-- The values of the cameras' fields once a whole configuration file has been read.
use recording_agent_continuo.Prelude.{
  ℕ, ◌+◌, ◌-◌, ◌*◌, ◌==◌, length, take, Bool, true, ◌&&◌, ◌≡◌, refl, ap, sym, ◌∙◌, inl, inr, Option,
  none, some, Option-cases, List, [], ◌∷◌, ◌++◌, All, arith, subst, if◌then◌else◌,
}
use recording_agent_continuo.Prelude.Text.{Text, codes}
use recording_agent_continuo.Config.Xml.{
  Param, Reader, Event, start_of, end_of, find_param, param_match, reset_char_data_buffer,
  process_char_data_buffer, enter, leave, next_offset, start_element, end_element, handle,
  handle_all, clean_param_data, File, read_blocks, begin_file, do_file, and_then, ◌>>=◌,
}
use recording_agent_continuo.Config.Xml.Document.{
  Field, CameraElement, cameras_then, store_cameras, IsCameraElement, pieces_then, between,
}
use recording_agent_continuo.Config.Xml.Cameras.{pieces-between, read-cameras}
use recording_agent_continuo.Config.Xml.Values.{
  IsInside, AreInside, IsElsewhere, store_cameras-field,
}

-- The events of a file, in the blocks in which it is read.
abbrev pub events_of : List (List Event × Bool) → List Event → List Event
events_of [] es = es
events_of ((b, accepted) ∷ bs) es = b ++ events_of bs es

abbrev pub IsAccepted : List Event × Bool → Type 0
IsAccepted b = b.1 ≡ true

handle_all-append :
    (es ds : List Event) (r : Reader)
    → handle_all (es ++ ds) r ≡ (handle_all es r >>= handle_all ds)
unfolding handle_all
handle_all-append [] ds r = refl
handle_all-append (e ∷ es) ds r = elim (Option-cases (handle e r)) [
  | inl stop ↦ rw stop refl
  | inr (s, go) ↦ rw go (handle_all-append es ds s)
]

read_blocks-accepted :
    (bs : List (List Event × Bool)) (es : List Event) (r s : Reader)
    → All IsAccepted bs
    → handle_all (events_of bs es) r ≡ some s
    → read_blocks bs (some (es, true)) true r ≡ some (true, s)
unfolding read_blocks
read_blocks-accepted [] es r s h e = ap (λ o. and_then o (λ t. some (true, t))) e
read_blocks-accepted ((b, accepted) ∷ bs) es r s h e =
    let both = sym (handle_all-append b (events_of bs es) r) ∙ e in
    let rest =
      λ (a : Bool) (o : Option Reader). and_then o (read_blocks bs (some (es, true)) (true && a)) in
    elim (Option-cases (handle_all b r)) [
      | inl stop ↦
          absurd (
            let broken = sym (ap (λ o. o >>= handle_all (events_of bs es)) stop) ∙ both in
            cc broken)
      | inr (t, go) ↦
          let later = sym (ap (λ o. o >>= handle_all (events_of bs es)) go) ∙ both in
          ap (λ a. rest a (handle_all b r)) h.0
          ∙ ap (rest true) go
          ∙ read_blocks-accepted bs es t s h.1 later
    ]

-- A whole file: a root element that is no parameter, with the cameras in it.
abbrev pub document : (root : Text) → (gap : List Text) → List CameraElement → List Event
document root gap cs = start_of root ∷ pieces_then gap (cameras_then cs (end_of root ∷ []))

module _ (params : List Param) (root : Text) (unlisted : find_param 0 root params ≡ none) where
  start-root :
      (gap : List Text) (rest : List Event) (p : Option Param) (vs : ℕ → Text)
      → handle_all (start_of root ∷ pieces_then gap rest) (between params p 0 0 vs)
        ≡ handle_all rest (between params p 1 0 vs)
  unfolding handle_all handle start_element process_char_data_buffer enter reset_char_data_buffer
      param_match
  start-root gap rest p vs = rw unlisted (pieces-between params gap rest p 1 0 vs)

  end-root :
      (p : Option Param) (offset : ℕ) (vs : ℕ → Text)
      → handle_all (end_of root ∷ []) (between params p 1 offset vs)
        ≡ some (between params p 0 offset vs)
  unfolding handle_all handle end_element process_char_data_buffer leave reset_char_data_buffer
      param_match next_offset
  end-root p offset vs = rw unlisted refl

module _ {ℓ κ} {A : Type ℓ} (P : A → Type κ) where
  All-middle : (xs : List A) (y : A) (zs : List A) → All P (xs ++ y ∷ zs) → P y × All P zs
  All-middle [] y zs h = h
  All-middle (x ∷ xs) y zs h = All-middle xs y zs h.1

begin_file-between :
    (params : List Param) (r : Reader)
    → (vs : ℕ → Text) × (begin_file params r ≡ between params r.cur_param 0 0 vs)
unfolding begin_file clean_param_data reset_char_data_buffer
begin_file-between [] r = (r.values, refl)
begin_file-between (p ∷ ps) r = elim (Option-cases p.value) [
  | inl plain ↦ (r.values, rw plain refl)
  | inr (a, e) ↦ ((λ x. if a == x then [] else r.values x), rw e refl)
]

-- For a table of parameters in which camera is one without an address, and a file that is accepted
-- in whatever blocks it is read: if its events are those of a root element that is no parameter
-- with cameras in it, of known fields in whatever pieces their texts come, each text shorter than
-- 128 characters and empty or not blank, and each address within the first camera's structure,
-- then the file is read, and for every camera and every field of it whose address no later field
-- of the camera has, what is stored at the address, moved by the size of a camera for each camera
-- before, is the field's text without the blanks around it, cut to one character less than the
-- maximal length.
pub do_file-value :
    (params : List Param) (root : Text) (gap : List Text) (camera : Param) (base : ℕ)
    (cs : List CameraElement) (c : CameraElement) (rest : List CameraElement) (before : List Field)
    (f : Field) (later : List Field) (file : File) (last : List Event) (r : Reader)
    → find_param 0 root params ≡ none
    → find_param 1 (codes "camera") params ≡ some camera
    → camera.value ≡ none
    → All (IsCameraElement params) (cs ++ c ∷ rest)
    → All (AreInside base camera.max_val_len) (cs ++ c ∷ rest)
    → c.fields ≡ before ++ f ∷ later
    → All (IsElsewhere f.address) later
    → All IsAccepted file.blocks
    → file.final ≡ some (last, true)
    → events_of file.blocks last ≡ document root gap (cs ++ c ∷ rest)
    → (s : Reader) × (do_file params (some file) r ≡ some (true, s))
      × (s.values (f.address + length cs * camera.max_val_len)
          ≡ take (f.param.max_val_len - 1) f.text)
unfolding do_file
do_file-value params root gap camera base cs c rest before f later file last r unlisted found plain
      known inside e apart accepted final events =
    let size = camera.max_val_len in
    let all = cs ++ c ∷ rest in
    let (vs, begun) = begin_file-between params r in
    let (p, o, read) =
      read-cameras params camera found plain all (end_of root ∷ []) r.cur_param 0 vs known in
    let s = between params p 0 o (store_cameras size 0 all vs) in
    let handled =
      ap (λ es. handle_all es (begin_file params r)) events
      ∙ ap (handle_all (document root gap all)) begun
      ∙ start-root params root unlisted gap (cameras_then all (end_of root ∷ [])) r.cur_param vs
      ∙ read
      ∙ end-root params root unlisted p o (store_cameras size 0 all vs) in
    let middle = All-middle (AreInside base size) cs c rest inside in
    let here =
      All-middle (IsInside base size) before f later
        (subst (All (IsInside base size)) e middle.0) in
    let offset : f.address + length cs * size ≡ f.address + (0 + length cs * size) = omega arith in
    (
      s,
      ap (λ l. read_blocks file.blocks l true (begin_file params r)) final
          ∙ read_blocks-accepted file.blocks last (begin_file params r) s accepted handled,
      ap (store_cameras size 0 all vs) offset
          ∙ store_cameras-field base size cs c rest before f later 0 vs e apart here.0.1 middle.1,
    )

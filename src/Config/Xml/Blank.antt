-- ===== src/Config/Xml/Blank.antt =====
-- Elements whose text is blank.
use recording_agent_continuo.Prelude.{
  ℕ, suc, ◌+◌, ◌<◌, length, ◌≡◌, ap, ◌∙◌, Option, none, some, List, [], ◌∷◌, arith, if◌then◌else◌,
}
use recording_agent_continuo.Prelude.Text.{Text}
use recording_agent_continuo.Config.Xml.{
  Param, Event, start_of, end_of, characters, buffer_size, find_param, drop_found, trim,
  store_trimmed, process_value, process_param, process_char_data_buffer, leave, then_do,
  end_element, handle, handle_all, ◌>>=◌,
}
use recording_agent_continuo.Config.Xml.Document.{IsBlank, between}
use recording_agent_continuo.Config.Xml.Trim.{skip_blanks-blank}
use recording_agent_continuo.Config.Xml.Cameras.{grabbing, start-value, piece-grabbing}

trim-blank : (c : ℕ) (s : Text) → IsBlank (c ∷ s) → trim (c ∷ s) ≡ none
unfolding trim
trim-blank c s h = ap drop_found (skip_blanks-blank (c ∷ s) h)

process-blank :
    (params : List Param) (p : Param) (a c : ℕ) (s : Text) (level offset : ℕ) (vs : ℕ → Text)
    → p.value ≡ some a
    → IsBlank (c ∷ s)
    → process_char_data_buffer (grabbing params p level offset (c ∷ s) vs) ≡ none
unfolding process_char_data_buffer process_param process_value store_trimmed
process-blank params p a c s level offset vs addressed h =
    let r = grabbing params p level offset (c ∷ s) vs in
    let off = if p.is_per_camera then offset else 0 in
    ap (λ o. process_value o p off (c ∷ s) r) addressed
    ∙ ap (λ o. store_trimmed (a + off) p.max_val_len o r) (trim-blank c s h)

-- An element of a parameter with an address whose text is one piece of blanks, at least one and
-- fewer than 128, makes the reader run past the end of the text.
pub handle_all-blank :
    (params : List Param) (name : Text) (p : Param) (a c : ℕ) (s : Text) (rest : List Event)
    (q : Option Param) (level offset : ℕ) (vs : ℕ → Text)
    → find_param level name params ≡ some p
    → p.value ≡ some a
    → IsBlank (c ∷ s)
    → length (c ∷ s) < buffer_size
    → handle_all
        (start_of name ∷ characters (c ∷ s) ∷ end_of name ∷ rest)
        (between params q level offset vs)
      ≡ none
unfolding handle_all handle end_element
handle_all-blank params name p a c s rest q level offset vs found addressed blank short =
    start-value params name p a (characters (c ∷ s) ∷ end_of name ∷ rest) q level offset vs found
      addressed
    ∙ piece-grabbing params (c ∷ s) [] (end_of name ∷ rest) p (suc level) offset vs (omega arith)
    ∙ ap (λ o. then_do (leave name) o >>= handle_all rest)
        (process-blank params p a c s (suc level) offset vs addressed blank)

-- ===== src/Config/Xml.antt =====
-- Reading a configuration file: reagent/src/config/xmlutil.c, on what expat calls its handlers with.
-- An address stands for the text that is stored there.
pub mod Document
pub mod Trim
pub mod Cameras
pub mod Values
pub mod Files
pub mod Blank
use recording_agent_continuo.Prelude.{
  ℕ, suc, ◌+◌, ◌-◌, ◌==◌, ltb, leb, length, take, Bool, true, false, not, ◌&&◌, Option, none, some,
  if◌then◌else◌, List, [], ◌∷◌, ◌++◌, set_at,
}
use recording_agent_continuo.Prelude.Text.{Text, codes, text_eq}

-- cfg_param_t with its tag; value is the address that the value goes to, none for NULL.
pub record Param : Type 0 where
  pub depth : ℕ
  pub is_per_camera : Bool
  pub name : Text
  pub value : Option ℕ
  pub max_val_len : ℕ

-- The static variables of the file, and the memory that the values go to. The buffer holds offs
-- characters.
pub record Reader : Type 0 where
  pub params : List Param
  pub grab_next_value : Bool
  pub cur_param : Option Param
  pub cur_level : ℕ
  pub cur_offset : ℕ
  pub char_data_buffer : Text
  pub overflow : Bool
  pub values : ℕ → Text

-- The calls of the handlers.
pub data Event : Type 0 where
  start_of : (element : Text) → Event
  end_of : (element : Text) → Event
  characters : (s : Text) → Event

abbrev pub buffer_size : ℕ
buffer_size = 128

-- The first parameter of the table with the name and the depth.
unfoldable pub find_param : (level : ℕ) → Text → List Param → Option Param
find_param level element [] = none
find_param level element (p ∷ ps) =
    let rest = find_param level element ps in
    if text_eq element p.name then (if level == p.depth then some p else rest) else rest

-- A match is kept in cur_param; without one it stays.
unfoldable pub param_match : Option Param → Reader → Reader
param_match none r = r
param_match (some p) r = record r { cur_param = some p }

unfoldable pub reset_char_data_buffer : Reader → Reader
reset_char_data_buffer r = record r {
  char_data_buffer = [];
  overflow = false;
  grab_next_value = false;
}

-- The first loop of trim; none if it runs past the end of the text.
unfoldable pub skip_blanks : Text → Option Text
skip_blanks [] = none
skip_blanks (c ∷ cs) = let rest = skip_blanks cs in if leb c b' ' then rest else some (c ∷ cs)

-- The second loop of trim.
unfoldable pub drop_blanks : Text → Text
drop_blanks [] = []
drop_blanks (c ∷ cs) = elim (drop_blanks cs) [
  | [] ↦ if leb c b' ' then [] else c ∷ []
  | d ∷ ds ↦ c ∷ (d ∷ ds)
]

abbrev pub drop_found : Option Text → Option Text
drop_found none = none
drop_found (some p) = some (drop_blanks p)

unfoldable pub trim : Text → Option Text
unfolding skip_blanks drop_blanks
trim [] = some []
trim (c ∷ cs) = drop_found (skip_blanks (c ∷ cs))

abbrev pub store : (address : ℕ) → Text → Reader → Reader
store address v r = record r { values = set_at address v r.values }

-- strncpy of at most max_val_len - 1 characters into memory that holds zeros behind them.
unfoldable pub store_trimmed : (address max_val_len : ℕ) → Option Text → Reader → Option Reader
store_trimmed address max_val_len none r = none
store_trimmed address max_val_len (some v) r = some (store address (take (max_val_len - 1) v) r)

unfoldable pub process_value : Option ℕ → Param → (arr_off : ℕ) → Text → Reader → Option Reader
process_value none p arr_off buffer r = some r
process_value (some a) p arr_off [] r = some (store (a + arr_off) [] r)
process_value (some a) p arr_off (c ∷ cs) r =
    store_trimmed (a + arr_off) p.max_val_len (trim (c ∷ cs)) r

unfoldable pub process_param : Option Param → Reader → Option Reader
process_param none r = none
process_param (some p) r =
    process_value p.value p (if p.is_per_camera then r.cur_offset else 0) r.char_data_buffer r

-- None where the program reads outside its objects.
unfoldable pub process_char_data_buffer : Reader → Option Reader
process_char_data_buffer r = if r.grab_next_value then process_param r.cur_param r else some r

abbrev pub has_value : Option Param → Bool
has_value none = false
has_value (some p) = elim p.value [ none ↦ false | some a ↦ true ]

-- start_element, behind the call of process_char_data_buffer.
unfoldable pub enter : (element : Text) → Reader → Reader
enter element r =
    let fresh = reset_char_data_buffer r in
    let found = find_param r.cur_level element r.params in
    record (param_match found fresh) {
      grab_next_value = has_value found;
      cur_level = suc r.cur_level;
    }

-- At the end of a camera, the next one's values go behind it.
unfoldable pub next_offset : (element : Text) → Option Param → Reader → Reader
next_offset element none r = r
next_offset element (some p) r =
    if text_eq element (codes "camera")
    then record r { cur_offset = r.cur_offset + p.max_val_len }
    else r

-- end_element, behind the call of process_char_data_buffer.
unfoldable pub leave : (element : Text) → Reader → Reader
leave element r =
    let found = find_param (r.cur_level - 1) element r.params in
    reset_char_data_buffer
      (next_offset element found (param_match found (record r { cur_level = r.cur_level - 1 })))

abbrev pub then_do : (Reader → Reader) → Option Reader → Option Reader
then_do f none = none
then_do f (some r) = some (f r)

unfoldable pub start_element : (element : Text) → Reader → Option Reader
start_element element r = then_do (enter element) (process_char_data_buffer r)

unfoldable pub end_element : (element : Text) → Reader → Option Reader
end_element element r = then_do (leave element) (process_char_data_buffer r)

unfoldable pub char_data : Text → Reader → Reader
char_data s r =
    if r.grab_next_value && not r.overflow
    then (if leb buffer_size (length s + length r.char_data_buffer)
        then record r { overflow = true }
        else record r { char_data_buffer = r.char_data_buffer ++ s })
    else r

unfoldable pub handle : Event → Reader → Option Reader
handle (start_of element) r = start_element element r
handle (end_of element) r = end_element element r
handle (characters s) r = some (char_data s r)

infixl 5 ◌>>=◌
abbrev pub ◌>>=◌ : Option Reader → (Reader → Option Reader) → Option Reader
none >>= f = none
some r >>= f = f r

unfoldable pub handle_all : List Event → Reader → Option Reader
handle_all [] r = some r
handle_all (e ∷ es) r = handle e r >>= handle_all es

-- p is not moved on, so that only the value of the first parameter is cleared.
unfoldable pub clean_param_data : List Param → Reader → Reader
clean_param_data [] r = r
clean_param_data (p ∷ ps) r = elim p.value [ none ↦ r | some a ↦ store a [] r ]

-- What reading a file gives: a call of XML_Parse for each block that is read, with the handlers that
-- it calls and whether it accepts; then either a read that fails or the call for the end.
pub record File : Type 0 where
  pub blocks : List (List Event × Bool)
  pub final : Option (List Event × Bool)

abbrev pub and_then : Option Reader → (Reader → Option (Bool × Reader)) → Option (Bool × Reader)
and_then none f = none
and_then (some r) f = f r

-- The loop of do_file; rc_ok says that rc is 0.
unfoldable pub read_blocks :
    List (List Event × Bool)
    → Option (List Event × Bool)
    → (rc_ok : Bool) → Reader
    → Option (Bool × Reader)
read_blocks [] none rc_ok r = some (false, r)
read_blocks [] (some (es, accepted)) rc_ok r =
    and_then (handle_all es r) (λ s. some (rc_ok && accepted, s))
read_blocks ((es, accepted) ∷ bs) final rc_ok r =
    and_then (handle_all es r) (read_blocks bs final (rc_ok && accepted))

-- The handlers start from this state; the memory is kept.
unfoldable pub begin_file : List Param → Reader → Reader
begin_file params r =
    reset_char_data_buffer
      (clean_param_data params (record r { params = params; cur_level = 0; cur_offset = 0 }))

-- Whether it returns 0; a file that cannot be opened is none.
unfoldable pub do_file : List Param → Option File → Reader → Option (Bool × Reader)
do_file params none r = some (false, r)
do_file params (some f) r = read_blocks f.blocks f.final true (begin_file params r)

-- The number of files that were read, up to the first that fails.
unfoldable pub get_cfg_params :
    List (List Param × Option File) → (i : ℕ) → Reader → Option (ℕ × Reader)
get_cfg_params [] i r = some (i, r)
get_cfg_params ((params, file) ∷ rest) i r = elim (do_file params file r) [
  | none ↦ none
  | some (true, s) ↦ get_cfg_params rest (suc i) s
  | some (false, s) ↦ some (i, s)
]

-- ===== src/Config/Dom/Urls.antt =====
-- New addresses of cameras: format_mac, replace_ip and update_configuration_file of
-- reagent/src/config/domutil.c.
use recording_agent_continuo.Prelude.{
  ℕ, suc, ◌+◌, ◌%◌, ◌==◌, ltb, leb, take, drop, Bool, false, not, ◌&&◌, ◌||◌, Option, none, some,
  if◌then◌else◌, List, [], ◌∷◌, ◌++◌,
}
use recording_agent_continuo.Prelude.Text.{Text, codes, text_eq, starts_with}

unfoldable pub tolower : ℕ → ℕ
tolower c = if leb b'A' c && leb c b'Z' then c + 32 else c

-- The characters of a MAC address from the i-th on, with a colon before every second but the first.
unfoldable pub format_mac_from : (i : ℕ) → Text → Text
unfolding tolower
format_mac_from i [] = []
format_mac_from i (c ∷ cs) =
    (if (i % 2 == 0) && ltb 0 i then b':' ∷ [] else []) ++ tolower c ∷ format_mac_from (suc i) cs

unfoldable pub format_mac : Text → Text
format_mac s = format_mac_from 0 s

abbrev pub one_more : Option ℕ → Option ℕ
one_more none = none
one_more (some n) = some (suc n)

-- strstr, as the number of characters before the match.
unfoldable pub find_text : (pattern : Text) → Text → Option ℕ
find_text pattern [] = if starts_with pattern [] then some 0 else none
find_text pattern (c ∷ cs) =
    let rest = one_more (find_text pattern cs) in
    if starts_with pattern (c ∷ cs) then some 0 else rest

-- strchr, in the same way.
unfoldable pub find_char : ℕ → Text → Option ℕ
find_char x [] = none
find_char x (c ∷ cs) = let rest = one_more (find_char x cs) in if c == x then some 0 else rest

abbrev pub or_else : Option ℕ → Option ℕ → Option ℕ
or_else none other = other
or_else (some n) other = some n

-- Where the URL's scheme stands; both are seven characters long.
unfoldable pub find_scheme : Text → Option ℕ
find_scheme str = or_else (find_text (codes "http://") str) (find_text (codes "rtsp://") str)

-- The end of the address, in the text behind the scheme.
unfoldable pub find_end : Text → Option ℕ
find_end s = or_else (find_char b':' s) (find_char b'/' s)

unfoldable pub replace_at : (start : ℕ) → Option ℕ → (str new_ip : Text) → Text
replace_at start none str new_ip = str
replace_at start (some n) str new_ip = take start str ++ new_ip ++ drop n (drop start str)

unfoldable pub replace_host : Option ℕ → (str new_ip : Text) → Text
replace_host none str new_ip = str
replace_host (some n) str new_ip = replace_at (n + 7) (find_end (drop (n + 7) str)) str new_ip

-- The text that replaces str; its buffer is taken to hold it.
unfoldable pub replace_ip : (str new_ip : Text) → Text
replace_ip str new_ip = replace_host (find_scheme str) str new_ip

-- What update_configuration_file is given.
pub record NewUrls : Type 0 where
  pub tag : Text
  pub home_page : Text
  pub snap_url : Text
  pub strm_url : Text

-- Whether a camera element was met, and whether the one that is searched for is being changed.
unfoldable pub next_found : (prev_camera found : Bool) → (tag element value : Text) → Bool
next_found prev_camera found tag element value =
    found || (text_eq element (codes "name") && (prev_camera && text_eq value tag))

abbrev pub changed : (new old : Text) → Text
changed new old = if text_eq new old then old else new

-- The value of an element of the camera that is being changed.
unfoldable pub new_value : NewUrls → (element value : Text) → Text
new_value u element value =
    if text_eq element (codes "home_page")
    then changed u.home_page value
    else if text_eq element (codes "snapshot_url")
    then changed u.snap_url value
    else if text_eq element (codes "stream_url")
    then changed u.strm_url value
    else value

-- The walk over the elements of a document with their texts, where those that are compared have one;
-- the flag is is_dirty, which only a
-- new stream URL sets.
unfoldable pub update_from :
    NewUrls → (prev_camera found : Bool) → List (Text × Text) → List (Text × Text) × Bool
update_from u prev_camera found [] = ([], false)
update_from u prev_camera found ((element, value) ∷ rest) =
    let prev = prev_camera || text_eq element (codes "camera") in
    let here = next_found prev found u.tag element value in
    let is_stream = text_eq element (codes "stream_url") in
    let (rest', dirty) = update_from u prev (here && not is_stream) rest in
    (
      (element, if here then new_value u element value else value) ∷ rest',
      (here && (is_stream && not (text_eq u.strm_url value))) || dirty,
    )

unfoldable pub update_configuration_file : NewUrls → List (Text × Text) → List (Text × Text) × Bool
update_configuration_file u doc = update_from u false false doc

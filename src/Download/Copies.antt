-- ===== src/Download/Copies.antt =====
-- What the copies of a download's chunks decide.
use recording_agent_continuo.Prelude.{
  ◌+◌, ◌≡◌, ◌==◌, refl, Bool, true, false, not, ◌&&◌, ◌||◌, Option, none, some, List, [], ◌∷◌,
  arith, Bool-cases, inl, inr, ◌∙◌,
}
use recording_agent_continuo.Prelude.Text.{Text}
use recording_agent_continuo.Download.{
  DrChunk, Drive, Piece, Writing, start_first, start_next, end_segment, end_if_gap, add_chunk,
  add_path, add_chunks, copy_path, written_status,
}
use recording_agent_continuo.Download.Attempt.{is_full}

abbrev has_path : Option Text → Bool
has_path none = false
has_path (some tp) = true

-- Some chunk has a path.
abbrev pub any_path : Drive → List DrChunk → Bool
any_path d [] = false
any_path d (c ∷ cs) = has_path (d.make_filepath c) || any_path d cs

abbrev is_copied : Drive → Text → Option Text → Bool
is_copied d destination none = true
is_copied d destination (some tp) = d.copies tp (copy_path destination tp)

-- Every chunk with a path can be copied.
abbrev pub all_copied : Drive → Text → List DrChunk → Bool
all_copied d destination [] = true
all_copied d destination (c ∷ cs) =
    is_copied d destination (d.make_filepath c) && all_copied d destination cs

add_chunk-cc :
    (d : Drive) (tp : Text) (c : DrChunk) (cs : List DrChunk) (w : Writing)
    → (add_chunk d tp c cs w).1.cc ≡ w.cc + 1
unfolding add_chunk start_first end_if_gap end_segment start_next
add_chunk-cc d tp c [] w = ground arith
add_chunk-cc d tp c (n ∷ cs) w = ground arith

add_path-full :
    (d : Drive) (destination : Text) (o : Option Text) (c : DrChunk) (cs : List DrChunk)
    (others : Writing → List Piece × Option Writing) (copied any : Bool)
    → ((w : Writing) → is_full (written_status (others w).1) ≡ (copied && (not (w.cc == 0) || any)))
    → (w : Writing)
    → is_full (written_status (add_path d destination o c cs others w).1)
      ≡ ((is_copied d destination o && copied) && (not (w.cc == 0) || (has_path o || any)))
unfolding add_path written_status
add_path-full d destination none c cs others copied any h w = h w
add_path-full d destination (some tp) c cs others copied any h w =
    elim (Bool-cases (d.copies tp (copy_path destination tp))) [
      | inr fails ↦ rw fails refl
      | inl done ↦
          let rest = h (add_chunk d tp c cs w).1 in
          let count = add_chunk-cc d tp c cs w in rw done (rest ∙ ground arith)
    ]

pub add_chunks-full :
    (d : Drive) (destination : Text) (cs : List DrChunk) (w : Writing)
    → is_full (written_status (add_chunks d destination cs w).1)
      ≡ (all_copied d destination cs && (not (w.cc == 0) || any_path d cs))
unfolding add_chunks written_status
add_chunks-full d destination [] w = ground arith
add_chunks-full d destination (c ∷ cs) w =
    add_path-full d destination (d.make_filepath c) c cs (add_chunks d destination cs)
      (all_copied d destination cs) (any_path d cs) (add_chunks-full d destination cs) w

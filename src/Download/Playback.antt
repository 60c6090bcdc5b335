-- ===== src/Download/Playback.antt =====
-- The links for playback: prepare_playback of reagent/src/ra_download.c. It asks for the offset with
-- the flag of playback, which sets the same offset.
use recording_agent_continuo.Prelude.{
  ℕ, ◌+◌, ◌/◌, Bool, true, false, Option, none, some, if◌then◌else◌, List, [], ◌∷◌,
}
use recording_agent_continuo.Prelude.Text.{Text}
use recording_agent_continuo.Metarec.Recorder.{u64, sub_u64}
use recording_agent_continuo.Search.{mklink}
use recording_agent_continuo.Download.{DrChunk, Drive, get_timeoffset_from_chunk_header, is_last}

-- first_chunk, the two offsets, and what drange points to, in 64 bits.
pub record Offsets : Type 0 where
  first_chunk : Bool
  first_chunk_offset : ℕ
  last_chunk_offset : ℕ
  drange : ℕ × ℕ

abbrev last_of : DrChunk → List DrChunk → DrChunk
last_of c [] = c
last_of c (n ∷ cs) = last_of n cs

-- The range of time from the first of the chunks to the last.
unfoldable pub data_range : DrChunk → DrChunk → Offsets → ℕ × ℕ
data_range first last o = (
  sub_u64 first.epoch_time o.first_chunk_offset,
  sub_u64 (u64 (last.epoch_time + (last.duration / 1000000 + 1))) o.last_chunk_offset,
)

unfoldable pub note_first : Drive → Text → Offsets → Offsets
note_first d tp o = if o.first_chunk then o else record o {
  first_chunk = true;
  first_chunk_offset = get_timeoffset_from_chunk_header d tp o.first_chunk_offset;
}

unfoldable pub note_last : Drive → Text → List DrChunk → Offsets → Offsets
note_last d tp cs o =
    if is_last cs
    then record o { last_chunk_offset = get_timeoffset_from_chunk_header d tp o.last_chunk_offset }
    else o

-- The links, in order, and the offsets behind the chunks.
unfoldable pub link_chunks :
    Drive
    → (destination : Text) → (first last : DrChunk) → List DrChunk
    → Offsets
    → List (Option Text) × Offsets
link_chunks d destination first last [] o = ([], o)
link_chunks d destination first last (c ∷ cs) o = elim (d.make_filepath c) [
  | none ↦ link_chunks d destination first last cs o
  | some tp ↦
      let noted = note_last d tp cs (note_first d tp o) in
      let rest =
        link_chunks d destination first last cs
          (record noted { drange = data_range first last noted }) in
      (mklink tp destination ∷ rest.0, rest.1)
]

abbrev at_start : ℕ × ℕ → Offsets
at_start range = record {
  first_chunk = false;
  first_chunk_offset = 0;
  last_chunk_offset = 0;
  drange = range;
}

-- None without a chunk; otherwise the links and the range, from the range before.
unfoldable pub prepare_playback :
    Drive
    → (destination : Text) → (drange : ℕ × ℕ) → List DrChunk
    → Option (List (Option Text) × (ℕ × ℕ))
prepare_playback d destination drange [] = none
prepare_playback d destination drange (c ∷ cs) =
    let r = link_chunks d destination c (last_of c cs) (c ∷ cs) (at_start drange) in
    some (r.0, r.1.drange)

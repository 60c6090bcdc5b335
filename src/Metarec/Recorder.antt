-- ===== src/Metarec/Recorder.antt =====
-- The state of metarec's recording thread: the channel and chunk descriptors of its headers, the
-- static variables of metaio.c, the local variables of the thread, and a trace of what it asks of
-- the file system. A FILE pointer is a number, and `none` is NULL.
use recording_agent_continuo.Prelude.{
  ℕ, ◌+◌, ◌-◌, ◌*◌, ◌%◌, ◌^◌, ◌==◌, Bool, Option, if◌then◌else◌, List, [], ◌∷◌, ◌++◌,
}
use recording_agent_continuo.Prelude.Text.{Text}
use recording_agent_continuo.Metarec.{MetaDataType, Desc}

-- `struct tm`, with the year and the month as they are written.
pub record Tm : Type 0 where
  pub tm_year : ℕ
  pub tm_mon : ℕ
  pub tm_mday : ℕ
  pub tm_hour : ℕ
  pub tm_min : ℕ
  pub tm_sec : ℕ

-- `rcd_idx_t`
pub record RcdIdx : Type 0 where
  pub byteoffset : ℕ
  pub timestamp : ℕ
  pub recordtype : MetaDataType
  pub recordlength : ℕ

-- What the thread asks of the file system, and the blocks that it frees. `write_prefix` carries
-- the digital mappings and the start time; `write_index` the counts and the index records.
pub data Effect : Type 0 where
  open_file : Text → Option ℕ → Effect
  write_prefix : ℕ → List (ℕ × Text) → (sec usec : ℕ) → Effect
  write_index : ℕ → (num_records max_records : ℕ) → List RcdIdx → Effect
  update_hmac : ℕ → Effect
  close_file : ℕ → Effect
  rename_file : Text → Text → Effect
  fs_event : Text → Effect
  make_dir : Text → Effect
  write_data : ℕ → (at : ℕ) → Desc → Effect
  tell : ℕ → Effect
  free_block : ℕ → Effect

-- An element of `data_loc`.
pub record DataLoc : Type 0 where
  pub is_used : Bool
  pub basedir : Text
  pub datadir : Text
  pub stagingdir : Text

-- `metadata_chunk_desc_t`, the fields that the code uses.
pub record ChunkDesc : Type 0 where
  pub session_just_started : Bool
  pub drive_status_updated : Bool
  pub prev_tm : Tm
  pub chunk_fname : Text
  pub chunk_duration_usecs : ℕ
  pub chunk_max_duration : ℕ
  pub fp : ℕ → Option ℕ
  pub t0 : ℕ
  pub deltat : ℕ

pub record Recorder : Type 0 where
  pub data_loc : ℕ → DataLoc
  pub subpath : Text
  pub n_copies : ℕ
  pub chunk_duration : ℕ
  pub m_chunk : ChunkDesc
  pub num_records : ℕ
  pub max_records : ℕ
  pub idx_allocated : Bool
  pub idx_data : ℕ → RcdIdx
  pub forward_time_change_occurred : Bool
  pub pre_chm_rec : Option Bool
  pub pre_ssd_rec : Option Bool
  pub out : ℕ → Option ℕ
  pub pos : ℕ
  -- The file offset of each stream.
  pub offset : ℕ → ℕ
  pub trace : List Effect

-- What one pass of the thread meets: the results of calls outside the repository. `fopen` and
-- `fwrite_ok` go by the storage location.
pub record World : Type 0 where
  pub gmtime : ℕ → Tm
  pub fopen : ℕ → Text → Option ℕ
  pub fwrite_ok : ℕ → Bool
  pub is_dir_exist : Text → Bool
  pub recording_mode : Option ℕ
  pub chm_commanded : Option ℕ → Bool
  pub ssd_commanded : Option ℕ → Bool
  -- CLOCK_MONOTONIC_RAW, in seconds and nanoseconds.
  pub mono_sec : ℕ
  pub mono_nsec : ℕ

-- Sizes that headers outside the repository define: of the prefix of a chunk file, of the header
-- behind it, of the array of index records, and the default of the records in a chunk.
pub record Sizes : Type 0 where
  pub prefix_size : ℕ
  pub header_size : ℕ
  pub index_capacity : ℕ
  pub default_chunk_records : ℕ

-- `a[i] = x`
abbrev pub put {ℓ} : {A : Type ℓ} → (ℕ → A) → ℕ → A → ℕ → A
put a i x j = if j == i then x else a j

abbrev pub log : Effect → Recorder → Recorder
log e r = record r { trace = r.trace ++ (e ∷ []) }

-- `for (idx = 0; idx < MAXDATALOC; idx++)`, with MAXDATALOC 2.
abbrev pub each_location : (ℕ → Recorder → Recorder) → Recorder → Recorder
each_location body r = body 1 (body 0 r)

-- The stream that stdout is.
abbrev pub stdout : ℕ
stdout = 1

-- unsigned long long and unsigned int
abbrev pub u64 : ℕ → ℕ
u64 n = n % 2 ^ 64

abbrev pub u32 : ℕ → ℕ
u32 n = n % 2 ^ 32

-- a - b on 64 bits, for operands below 2 ^ 64.
abbrev pub sub_u64 : ℕ → ℕ → ℕ
sub_u64 a b = (a + 2 ^ 64 - b) % 2 ^ 64

-- Seconds and nanoseconds as nanoseconds.
abbrev pub nanoseconds : ℕ → ℕ → ℕ
nanoseconds sec nsec = u64 (u64 (sec * 1000000000) + nsec)

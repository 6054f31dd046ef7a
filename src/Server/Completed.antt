-- ===== src/Server/Completed.antt =====
-- src/ssync/space_sync/receiver.py: files that are there already, `_is_matching_completed_file`,
-- `_trim_completed_hash_cache` and `_query_local_file`, and `_maybe_handle_file_info_query`. `sha256` is
-- what `hashlib.sha256` computes.
use ssync.Prelude.{
  ℕ, Bool, true, false, not, ◌&&◌, Option, none, some, List, [], ◌∷◌, ltb, ◌==◌, if◌then◌else◌,
  length,
}
use ssync.Result.{ok, err}
use ssync.Struct.{Bytes}
use ssync.Utf8.{Str, decode_utf8}
use ssync.Dict.{get_item, set_item, pop_item}
use ssync.Types.{
  TransferManifest, TransferStatus, RemoteFileInfo, incomplete, complete, file_info_response,
}
use ssync.Frames.{bytes_eq}
use ssync.Frames.Status.{encode_status}
use ssync.Receiver.{Addr, FilePath, Effect, send_frame}
use ssync.Paths.{safe_destination_path}
use ssync.Server.{Server, StoredFile, path_eq, sized_entry, source_mtime_key}

-- `_COMPLETED_HASH_CACHE_MAX_ENTRIES`
abbrev completed_hash_cache_max_entries : ℕ
completed_hash_cache_max_entries = 4096

abbrev pub HashCache : Type 0
HashCache = List (FilePath × (ℕ × ℕ × Bytes))

-- The oldest entries go while there are too many.
unfoldable pub trim_completed_hash_cache : HashCache → HashCache
trim_completed_hash_cache [] = []
trim_completed_hash_cache (entry ∷ rest) =
    let trimmed = trim_completed_hash_cache rest in
    if ltb completed_hash_cache_max_entries (length (entry ∷ rest)) then trimmed else entry ∷ rest

abbrev pub query_path_key : ℕ
query_path_key = 100

abbrev pub query_include_checksum_key : ℕ
query_include_checksum_key = 101

abbrev pub query_token_key : ℕ
query_token_key = 102

-- `"__status_query__"`
abbrev pub status_query_name : Str
status_query_name =
    95 ∷ 95 ∷ 115 ∷ 116 ∷ 97 ∷ 116 ∷ 117 ∷ 115 ∷ 95 ∷ 113 ∷ 117 ∷ 101 ∷ 114 ∷ 121 ∷ 95 ∷ 95 ∷ []

-- `raw is not None and len(raw) > 0 and raw[0]`
abbrev pub is_set : Option Bytes → Bool
is_set none = false
is_set (some []) = false
is_set (some (b ∷ bs)) = ltb 0 b

-- A cache entry is for the size, the modification time and the hash.
abbrev pub is_cached : Option (ℕ × ℕ × Bytes) → StoredFile → TransferManifest → Bool
is_cached none file manifest = false
is_cached (some (cached_size, cached_mtime_ns, cached_sha)) file manifest =
    (cached_size == length file.contents)
    && (cached_mtime_ns == file.mtime_ns)
    && bytes_eq cached_sha manifest.sha256

module _ (sha256 : Bytes → Bytes) where
  -- What a file that is there has to do with the manifest: the answer, and the cache.
  unfoldable pub match_file :
      FilePath → TransferManifest → StoredFile → HashCache → Bool × HashCache
  unfolding trim_completed_hash_cache
  match_file final_path manifest file cache =
      let by_time : Option Bool = elim (sized_entry source_mtime_key 8 manifest) [
        | none ↦ none
        | some source_mtime_ns ↦ some (file.mtime_ns == source_mtime_ns)
      ] in
      let entry : ℕ × ℕ × Bytes = (length file.contents, file.mtime_ns, manifest.sha256) in
      let stored = trim_completed_hash_cache (set_item path_eq final_path entry cache) in
      if not (length file.contents == manifest.file_size)
      then (false, cache)
      else if is_cached (get_item path_eq final_path cache) file manifest
      then (true, cache)
      else elim by_time [
        | some same ↦ (same, cache)
        | none ↦
            if bytes_eq (sha256 file.contents) manifest.sha256
            then (true, stored)
            else (false, cache)
      ]

  unfoldable pub is_matching_completed_file :
      FilePath → TransferManifest → Server → Bool × HashCache
  unfolding match_file
  is_matching_completed_file final_path manifest s = elim (get_item path_eq final_path s.files) [
    | none ↦ (false, pop_item path_eq final_path s.completed_hash_cache)
    | some file ↦ match_file final_path manifest file s.completed_hash_cache
  ]

  unfoldable pub query_local_file : Str → Bool → Server → RemoteFileInfo
  query_local_file remote_path include_checksum s =
      let missing : RemoteFileInfo = record {
        path = remote_path;
        exists = false;
        size = 0;
        mtime_ns = 0;
        sha256 = none;
      } in
      elim (safe_destination_path remote_path) [
        | none ↦ missing
        | some final_path ↦ elim (get_item path_eq final_path s.files) [
          | none ↦ missing
          | some file ↦ record {
            path = remote_path;
            exists = true;
            size = length file.contents;
            mtime_ns = file.mtime_ns;
            sha256 = if include_checksum then some (sha256 file.contents) else none;
          }
        ]
      ]

  -- The answer to a query.
  abbrev pub info_status : TransferManifest → RemoteFileInfo → TransferStatus
  info_status manifest info = record {
    transfer_id = manifest.transfer_id;
    kind = file_info_response;
    state = if info.exists then complete else incomplete;
    missing_ranges = [];
    file_info = some info;
    query_token = get_item ◌==◌ query_token_key manifest.metadata;
  }

  -- What is sent, or none if the manifest is no query.
  unfoldable pub maybe_handle_file_info_query :
      TransferManifest → Addr → Server → Option (List Effect)
  unfolding query_local_file
  maybe_handle_file_info_query manifest source_addr s =
      elim (get_item ◌==◌ query_path_key manifest.metadata) [
        | none ↦ none
        | some path_raw ↦
            let include_checksum =
              is_set (get_item ◌==◌ query_include_checksum_key manifest.metadata) in
            let answer : List Effect = elim (decode_utf8 path_raw) [
              | err e ↦ []
              | ok remote_path ↦
                  send_frame
                    (encode_status
                      (info_status manifest (query_local_file remote_path include_checksum s)))
                    source_addr
                  ∷ []
            ] in
            if not (bytes_eq manifest.file_name status_query_name) then none else some answer
      ]

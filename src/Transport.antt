-- ===== src/Transport.antt =====
-- `ResumeDownloader::DownloadHttp` of RebornLauncher/ResumeDownload.cpp: one HTTP attempt that goes on
-- behind the bytes that are there. httplib and the file system answer by the fields of `HttpAnswers`.
-- File offsets do not wrap; `currentDownloadSize` and `currentDownloadProgress` are 32-bit patterns.
pub mod Prefix
use reborn_launcher.Base.{
  ℕ, ◌+◌, ◌^◌, min, max, Bool, true, false, not, ◌&&◌, ◌||◌, List, [], ◌∷◌, ◌++◌, Option, none,
  some, length, ltb, ◌==◌, if◌then◌else◌, text_eq, Text,
}
use reborn_launcher.Files.{FileData, empty_file, write_at, write_part}
use reborn_launcher.Deferred.{to_lower_ascii}
use reborn_launcher.SingleStream.{to_int}

-- How the receiver fares with a block: the file cannot be opened or sought, which may leave it empty
-- (`true`) if it was opened to be cut or made anew; the write fails after so many bytes; the block is
-- stored; or it counts as stored, but its flush fails, which nobody looks at, and leaves this file.
pub data Written : Type 0 where
  stored : Written
  no_file : Bool → Written
  torn : ℕ → Written
  unflushed : FileData → Written

-- `extension` is the path's, `probe` and `headers` a status and the total size that it states, and
-- `answered` whether the request ends with a response. `recreated`: the file does not open for an
-- update, and is made anew, empty, before it does.
pub record HttpAnswers : Type 0 where
  pub has_client : Bool
  pub extension : Text
  pub probe : Option (ℕ × ℕ)
  pub existing_opens : Bool
  pub removed : Bool
  pub recreated : Bool
  pub headers : Option (ℕ × ℕ)
  pub blocks : List (List ℕ × Written)
  pub answered : Bool

pub record HttpResult : Type 0 where
  pub ok : Bool
  pub file : Option FileData
  pub size : ℕ
  pub done : ℕ
  pub reports : List (ℕ × ℕ)

-- `IsImgFilePath`.
unfoldable pub is_img : Text → Bool
is_img extension = text_eq (to_lower_ascii extension) (46 ∷ 105 ∷ 109 ∷ 103 ∷ [])

-- `status == 200 || status == 206`.
unfoldable pub is_fine : ℕ → Bool
is_fine status = status == 200 || status == 206

-- `max(0, n)`, and `n > 0`, of an int.
unfoldable pub at_least_0 : ℕ → ℕ
at_least_0 n = if ltb n (2 ^ 31) then n else 0

unfoldable pub is_positive : ℕ → Bool
is_positive n = ltb 0 n && ltb n (2 ^ 31)

unfoldable pub probed_size : Option (ℕ × ℕ) → ℕ
unfolding is_fine
probed_size none = 0
probed_size (some (status, total)) = if is_fine status then to_int total else 0

abbrev pub file_of : Option FileData → FileData
file_of none = empty_file
file_of (some f) = f

unfoldable pub existing_size : Bool → Bool → Option FileData → ℕ
existing_size img opens none = 0
existing_size img opens (some f) = if img || not opens then 0 else f.size

-- The variables of the transfer.
pub record Http : Type 0 where
  pub file : Option FileData
  pub is_open : Bool
  pub next : ℕ
  pub truncates : Bool
  pub recreates : Bool
  pub size : ℕ
  pub done : ℕ
  pub reports : List (ℕ × ℕ)

-- Up to the request. `existing` bytes are there; more than there should be are removed.
unfoldable pub prepare_http : HttpAnswers → Option FileData → ℕ → ℕ → ℕ → Http
unfolding is_img is_positive at_least_0
prepare_http a file existing size done =
    let img = is_img a.extension in
    let too_long = is_positive size && not img && ltb size existing in
    let kept = if too_long then 0 else existing in
    record {
      file = if too_long && a.removed then none else file;
      is_open = false;
      next = kept;
      truncates = img || kept == 0;
      recreates = a.recreated;
      size = size;
      done = if ltb 0 kept then to_int kept else done;
      reports = (0, at_least_0 size) ∷ (if ltb 0 kept then (kept, at_least_0 size) ∷ [] else []);
    }

-- `handleResponse`; the request asked for a range when bytes were there.
unfoldable pub handle_response : ℕ × ℕ → Http → Http
unfolding at_least_0
handle_response (status, total) t =
    let whole = ltb 0 t.next && status == 200 in
    record t {
      next = if whole then 0 else t.next;
      done = if whole then 0 else t.done;
      truncates = whole || t.truncates;
      size = if ltb 0 total then to_int total else t.size;
      reports = if whole then t.reports ++ (0, at_least_0 t.size) ∷ [] else t.reports;
    }

-- `openOutputForWrite`, when it succeeds.
unfoldable pub opened_file : Http → FileData
opened_file t = if not t.is_open && (t.truncates || t.recreates) then empty_file else file_of t.file

unfoldable pub store_block : Http → List ℕ → Http
unfolding opened_file at_least_0
store_block t bs =
    let f = opened_file t in
    let done = to_int (t.done + length bs) in
    record t {
      file =
          some
            (record { size = max f.size (t.next + length bs); byte = write_at f.byte t.next bs });
      is_open = true;
      next = t.next + length bs;
      truncates = false;
      done = done;
      reports = t.reports ++ (at_least_0 done, at_least_0 t.size) ∷ [];
    }

-- The block counts, but the file is `f`.
unfoldable pub lose_block : Http → List ℕ → FileData → Http
unfolding store_block
lose_block t bs f = let counted = store_block t bs in record counted { file = some f }

unfoldable pub tear_block : Http → List ℕ → ℕ → Http
unfolding opened_file
tear_block t bs n =
    let f = opened_file t in
    record t {
      file = some (record {
        size = max f.size (t.next + min n (length bs));
        byte = write_part n f.byte t.next bs;
      });
      is_open = true;
      truncates = false;
    }

unfoldable pub receive_all : Http → List (List ℕ × Written) → Http
unfolding store_block lose_block tear_block
receive_all t [] = t
receive_all t ((bs, no_file emptied) ∷ blocks) =
    if emptied then record t { file = some empty_file } else t
receive_all t ((bs, unflushed f) ∷ blocks) = receive_all (lose_block t bs f) blocks
receive_all t ((bs, torn n) ∷ blocks) = tear_block t bs n
receive_all t ((bs, stored) ∷ blocks) = receive_all (store_block t bs) blocks

-- From the headers on; without them there is no body.
unfoldable pub respond : Option (ℕ × ℕ) → List (List ℕ × Written) → Http → Http
unfolding handle_response receive_all
respond none blocks t = t
respond (some head) blocks t = receive_all (handle_response head t) blocks

unfoldable pub is_fine_response : Bool → Option (ℕ × ℕ) → Bool
unfolding is_fine
is_fine_response answered none = false
is_fine_response answered (some (status, total)) = answered && is_fine status

unfoldable pub conclude_http : HttpAnswers → Http → HttpResult
unfolding is_fine_response at_least_0
conclude_http a t =
    let ok = is_fine_response a.answered a.headers in
    record {
      ok = ok;
      file = t.file;
      size = t.size;
      done = t.done;
      reports = if ok then t.reports ++ (at_least_0 t.size, at_least_0 t.size) ∷ [] else t.reports;
    }

-- `DownloadHttp`, with the size and the progress from before.
unfoldable pub download_http : HttpAnswers → Option FileData → ℕ → ℕ → HttpResult
unfolding is_img is_positive at_least_0 probed_size existing_size prepare_http respond conclude_http
download_http a file old_size done =
    let size = probed_size a.probe in
    let existing = existing_size (is_img a.extension) a.existing_opens file in
    if not a.has_client
    then record { ok = false; file = file; size = old_size; done = done; reports = [] }
    else if is_positive size && not (is_img a.extension) && existing == size
    then record {
      ok = true;
      file = file;
      size = size;
      done = done;
      reports = (0, at_least_0 size) ∷ (existing, size) ∷ [];
    }
    else conclude_http a (respond a.headers a.blocks (prepare_http a file existing size done))

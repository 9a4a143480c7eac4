-- ===== src/SingleStream.antt =====
-- `DownloadFileFromAbsoluteUrl` of RebornLauncher/ChunkDownload.cpp: one request for a whole file.
pub mod Sound
use reborn_launcher.Base.{
  ℕ, ◌+◌, ◌-◌, ◌%◌, ◌^◌, Bool, true, false, not, ◌&&◌, ◌||◌, List, [], ◌∷◌, Option, none, some,
  length, ltb, ◌==◌, if◌then◌else◌, u64_mod,
}
use reborn_launcher.Files.{FileData, empty_file, write_at, write_part}

-- `currentDownloadSize` and `currentDownloadProgress`: an `int` is its 32-bit pattern.
pub record Progress : Type 0 where
  pub size : ℕ
  pub done : ℕ

abbrev pub to_int : ℕ → ℕ
to_int n = n % 2 ^ 32

-- What the libraries and the system answer: whether the URL parses, the probed size, whether the
-- parent directory stands and the file opens, the blocks that arrive (`some k`: the write fails after
-- `k` bytes), the status and the size that the response states, how many bytes the closing of the
-- file fails to store, and whether the size of the file can be read.
pub record Answers : Type 0 where
  pub session : Bool
  pub probe : Option ℕ
  pub parent_ok : Bool
  pub open_ok : Bool
  pub blocks : List (List ℕ × Option ℕ)
  pub status : Option ℕ
  pub response_total : ℕ
  pub lost : ℕ
  pub size_ok : Bool

pub record Downloaded : Type 0 where
  pub ok : Bool
  pub target : Option FileData
  pub progress : Progress

-- The variables that the receiver changes.
pub record Transfer : Type 0 where
  pub file : FileData
  pub written : ℕ
  pub write_failed : Bool
  pub progress : Progress

append_block : Transfer → List ℕ → Transfer
append_block t bs = record {
  file = record { size = t.file.size + length bs; byte = write_at t.file.byte t.file.size bs };
  written = (t.written + length bs) % u64_mod;
  write_failed = false;
  progress = record { size = t.progress.size; done = to_int (t.progress.done + length bs) };
}

tear_block : Transfer → List ℕ → ℕ → Transfer
tear_block t bs k = record {
  file = record { size = t.file.size + k; byte = write_part k t.file.byte t.file.size bs };
  written = t.written;
  write_failed = true;
  progress = t.progress;
}

-- The receiver on the blocks; one that returned false is not called again.
pub receive : Transfer → List (List ℕ × Option ℕ) → Transfer
unfolding append_block tear_block
receive t [] = t
receive t ((bs, none) ∷ blocks) = receive (append_block t bs) blocks
receive t ((bs, some k) ∷ blocks) = tear_block t bs k

pub remote_size : Option ℕ → ℕ
remote_size none = 0
remote_size (some n) = n

-- A response is there, with status 200 or 206.
pub is_success : Option ℕ → Bool
is_success none = false
is_success (some status) = status == 200 || status == 206

abbrev pub set_size : Progress → ℕ → Progress
set_size p n = record p { size = to_int n }

probed : Option ℕ → Progress → Progress
probed none p = p
probed (some n) p = set_size p n

-- The four checks of sizes behind a transfer that went well.
sizes_agree : Answers → Transfer → ℕ → Bool
sizes_agree a t size =
    not (ltb 0 (remote_size a.probe) && not (t.written == remote_size a.probe))
    && a.size_ok
    && size == t.written
    && not (ltb 0 (remote_size a.probe) && not (size == remote_size a.probe))

-- What follows the transfer, the closing of the file first.
pub conclude : Answers → Transfer → Downloaded
unfolding is_success remote_size sizes_agree
conclude a t =
    if t.write_failed || not (is_success a.status)
    then record {
      ok = false;
      target = some (record t.file { size = t.file.size - a.lost });
      progress = t.progress;
    }
    else record {
      ok = sizes_agree a t (t.file.size - a.lost);
      target = some (record t.file { size = t.file.size - a.lost });
      progress =
          if ltb 0 a.response_total then set_size t.progress a.response_total else t.progress;
    }

-- A run for a target that may exist; its old bytes are cut off when it opens.
unfoldable pub single_stream : Answers → Option FileData → Progress → Downloaded
unfolding receive conclude probed
single_stream a target p =
    if not a.session
    then record { ok = false; target = target; progress = p }
    else let p' = probed a.probe p in
      if not (a.parent_ok && a.open_ok)
      then record { ok = false; target = target; progress = p' }
      else conclude a (
          receive (record { file = empty_file; written = 0; write_failed = false; progress = p' })
            a.blocks)

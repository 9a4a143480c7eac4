-- ===== src/Transport/Prefix.antt =====
-- What an HTTP attempt leaves of a partial file (ResumeDownload.cpp).
use reborn_launcher.Base.{ℕ, ◌+◌, ◌<◌, ◌≡◌, true, false, List, [], ◌∷◌, Option, none, some, length}
use reborn_launcher.Files.{FileData}
use reborn_launcher.Files.Writes.{Matches}
use reborn_launcher.Transport.{
  Written, unflushed, HttpAnswers, is_img, file_of, existing_size, Http, prepare_http,
  handle_response,
}

-- Every byte of the file is the remote's.
abbrev pub IsPrefix : (ℕ → ℕ) → Option FileData → Type 0
IsPrefix content file = (o : ℕ) → o < (file_of file).size → (file_of file).byte o ≡ content o

-- The blocks are the remote's bytes from an offset on.
abbrev pub BlocksMatch : (ℕ → ℕ) → ℕ → List (List ℕ × Written) → Type 0
BlocksMatch content o [] = Unit
BlocksMatch content o ((bs, _) ∷ blocks) =
    Matches content o bs × BlocksMatch content (o + length bs) blocks

-- No block's flush fails.
abbrev pub AllFlushed : List (List ℕ × Written) → Type 0
AllFlushed [] = Unit
AllFlushed ((bs, unflushed f) ∷ blocks) = ⊥
AllFlushed ((bs, _) ∷ blocks) = AllFlushed blocks

-- The next block belongs at the end of the file, or at the front of one that is cut first.
record IsReady (content : ℕ → ℕ) (t : Http) : Type 0 where
  pub right : IsPrefix content t.file
  pub front : t.truncates ≡ true → t.next ≡ 0
  pub end : t.truncates ≡ false → t.next ≡ (file_of t.file).size
  pub kept : t.recreates ≡ false
  pub fresh : t.is_open ≡ true → t.truncates ≡ false

-- Where the body of a response belongs: at the front if the status says that the whole file comes,
-- else behind the bytes that are there.
abbrev pub body_offset : HttpAnswers → Option FileData → ℕ → ℕ → ℕ
body_offset a file size done =
    let t =
      prepare_http a file (existing_size (is_img a.extension) a.existing_opens file) size done in
    elim a.headers [ none ↦ t.next | some head ↦ (handle_response head t).next ]

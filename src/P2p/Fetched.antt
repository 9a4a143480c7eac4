-- ===== src/P2p/Fetched.antt =====
-- What `TryDownload` of RebornLauncher/P2PClient.cpp leaves in the target.
use reborn_launcher.Base.{ℕ, ◌≡◌, ◌⊎◌, true, false, ◌||◌, List, Option, none, some, Text}
use reborn_launcher.Deferred.{member}
use reborn_launcher.P2p.{Reply, Run, is_taken, build_candidate_paths, normalize_relative_path}
use reborn_launcher.P2p.Endpoint.{
  Groups, Endpoint, Result, returns, throws, refused, parse_endpoint,
}

-- A reply that passes the tests, and whose file replaces the target.
pub record IsFetched (answers : Text → Reply) (candidates : List Text) (run : Run) : Type 0 where
  pub candidate : Text
  pub asked : member candidate candidates ≡ true
  pub taken : is_taken (answers candidate) ≡ true
  pub returned : run.ok ≡ true
  pub stored : run.target ≡ some (answers candidate).stored

-- Nothing fetched: the target is as before, or a taken reply's file did not replace it.
pub record IsMissed (answers : Text → Reply) (candidates : List Text) (target : Option Text)
    (run : Run) : Type 0 where
  pub returned : run.ok ≡ false
  pub kept :
      (run.target ≡ target)
      ⊎ ((candidate : Text) × (member candidate candidates ≡ true)
          × (is_taken (answers candidate) ≡ true)
          × ((answers candidate).renamed || (answers candidate).copied ≡ false))

abbrev pub IsTried : (Text → Reply) → List Text → Option Text → Run → Type 0
IsTried answers candidates target run =
    IsFetched answers candidates run ⊎ IsMissed answers candidates target run

module _ (matches : Text → Option Groups) (stoi : Text → Option ℕ) where
  -- The port of the endpoint does not convert.
  abbrev pub IsBadPort : Text → Type 0
  IsBadPort endpoint =
      (g : Groups) × (digits : Text) × (matches endpoint ≡ some g)
      × (g.port ≡ some digits)
      × (stoi digits ≡ none)

  -- The outcome of a download of `url` by the server at `endpoint`.
  abbrev pub IsOutcome : (Text → Reply) → Text → Text → Option Text → Result Run → Type 0
  IsOutcome answers endpoint url target throws = IsBadPort endpoint
  IsOutcome answers endpoint url target (returns run) =
      (run ≡ refused target)
      ⊎ ((e : Endpoint) × (parse_endpoint matches stoi endpoint ≡ returns (some e))
          × IsTried answers (build_candidate_paths e.path (normalize_relative_path url)) target run)

  -- The end of parsing an endpoint.
  abbrev IsParsed : Text → Result (Option Endpoint) → Type 0
  IsParsed endpoint throws = IsBadPort endpoint
  IsParsed endpoint (returns o) = Unit

-- ===== src/Maven/Download/Search.antt =====
-- pkg/util/maven/maven.go: which repository serves a download.
use teiid_operator.Prelude.{◌≡◌, refl, List, [], ◌∷◌, ◌⊎◌, inl, inr}
use teiid_operator.Text.{Str, codes}
use teiid_operator.Result.{Result, ok, err, failed, Err}
use teiid_operator.Maven.Download.{Remote, download_file, artifact_url, download_from}

module _ {W : Type 0} (remote : Remote W) (filepath name : Str) where
  abbrev try : Str → W → Result (Unit {0}) × W
  try v w = download_file remote filepath (artifact_url v name) w

  -- One after the other all repositories fail, from the state `w` to the state `w'`.
  pub data AllFail : List (Str × Str) → W → W → Type 0 where
    nobody : {w : W} → AllFail [] w w
    next :
        {k v : Str} {repos : List (Str × Str)} {w w' : W} {e : Err}
        → (try v w).0 ≡ err e
        → AllFail repos (try v w).1 w'
        → AllFail ((k, v) ∷ repos) w w'

  -- A repository serves the file, after those before it failed.
  pub data Serves : List (Str × Str) → W → W → Type 0 where
    here :
        {k v : Str} {repos : List (Str × Str)} {w : W}
        → (try v w).0 ≡ ok tt
        → Serves ((k, v) ∷ repos) w (try v w).1
    later :
        {k v : Str} {repos : List (Str × Str)} {w w' : W} {e : Err}
        → (try v w).0 ≡ err e
        → Serves repos (try v w).1 w'
        → Serves ((k, v) ∷ repos) w w'

  abbrev Outcome : List (Str × Str) → W → Result Str × W → Type 0
  Outcome repos w r =
      (Serves repos w r.1 × (r.0 ≡ ok filepath))
      ⊎ (AllFail repos w r.1
          × (r.0
              ≡ err (
                  failed
                    (codes "Failed to download the artifact from configured maven repositories"))))

  -- The repositories are asked in turn: the first that serves the file ends the search, and an error
  -- means that each of them failed.
  pub download_from_outcome :
      (repos : List (Str × Str)) (w : W)
      → (Serves repos w (download_from remote filepath name repos w).1
          × ((download_from remote filepath name repos w).0 ≡ ok filepath))
        ⊎ (AllFail repos w (download_from remote filepath name repos w).1
            × ((download_from remote filepath name repos w).0
                ≡ err (
                    failed (
                      codes "Failed to download the artifact from configured maven repositories"))))
  unfolding download_from
  download_from_outcome [] w = inr (nobody, refl)
  download_from_outcome ((k, v) ∷ repos) w =
      go (try v w).0 refl (download_from_outcome repos (try v w).1)
    where
      go :
          (r : Result (Unit {0}))
          → (try v w).0 ≡ r
          → Outcome repos (try v w).1 (download_from remote filepath name repos (try v w).1)
          → Outcome ((k, v) ∷ repos) w (download_from remote filepath name ((k, v) ∷ repos) w)
      go (ok tt) e rest = rw e (inl (here e, refl))
      go (err x) e (inl (s, q)) = rw e (inl (later e s, q))
      go (err x) e (inr (s, q)) = rw e (inr (next e s, q))

-- ===== src/Jobs/FileXfr/Infiled/Rounds.antt =====
-- What the rounds of the daemon do to a file that no type it is found under accepts.
use alya.Prelude.{ℕ, List, some, String, ◌≡◌, All, In}
use alya.Prelude.Result.{Result, ok}
use alya.Jobs.FileXfr.Defs.{XfrEnv, Site, FileXfrServer, T, TransferError}
use alya.Jobs.FileXfr.Server.Refused.{IsRefused}
use alya.Jobs.FileXfr.Infiled.{FileTypeMapping, InfiledConfig, empty_context}

module _ (env : XfrEnv) (fxs : FileXfrServer) (config : InfiledConfig)
    (path contents : String) where
  -- No check that is registered for the type finds the file's contents good.
  abbrev pub NoneGood : String → Type 0
  NoneGood file_type =
      IsRefused env fxs contents (env.base_name path) file_type (empty_context env fxs config)

  -- The types under which a mapping's pattern finds the file, at any time, refuse it.
  abbrev pub RefusedBy : FileTypeMapping → Type 0
  RefusedBy m =
      (n : ℕ) (dir match : String) (matches : List String)
      → env.glob n dir (env.trim_separator m.path) ≡ some matches
      → In match matches
      → env.join_path dir match ≡ path
      → NoneGood m.file_type

  -- The file is where it was.
  abbrev Stays : {A : Type 0} → T A → Type 0
  Stays m = (s : Site) → s.files path ≡ some contents → (m s).1.files path ≡ some contents

  -- What a search has found, which changes nothing.
  abbrev Found : String → Result TransferError (List String) × Site → Site → Type 0
  Found file_type (r, t) s =
      (t ≡ s)
      × ((files : List String) → r ≡ ok files → All (λ f. f ≡ path → NoneGood file_type) files)

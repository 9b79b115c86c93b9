-- ===== src/Home.antt =====
-- sharedpp/src/sharedpp/load_home_file.cpp: the files under `~/.tbore`, by their paths below it.
-- Whether a file can be opened for writing is an argument.
pub mod PublisherConfig
pub mod BrokerConfig
pub mod Saved
pub mod Announced
pub mod Requested
pub mod Users
pub mod Startup
mod Examples
use tunnel_drill.Prelude.{
  ℕ, Bool, true, false, List, Option, none, some, String, if◌then◌else◌, Outcome, done, thrown,
  or_throw,
}
use tunnel_drill.Prelude.Dict.{lookup, insert}

-- The directory, and the contents of its files.
pub record Home : Type 0 where
  pub exists : Bool
  pub files : List (String × List ℕ)

-- loadHomeFile
unfoldable pub load_home_file : String → Home → Outcome (List ℕ)
load_home_file subpath h = or_throw (lookup subpath h.files)

-- saveHomeFile
unfoldable pub save_home_file : (String → Bool) → String → List ℕ → Home → Outcome Home
save_home_file opens subpath bytes h =
    if opens subpath then done (record h { files = insert subpath bytes h.files }) else thrown

-- setupHome
unfoldable pub setup_home : Home → Home
setup_home h = if h.exists then h else record h { exists = true }

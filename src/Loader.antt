-- ===== src/Loader.antt =====
-- internal/config/loader.go: the reading of configurations with their imports. What it does to the
-- disk is a state: the files it writes, in order, and the cache. The children hold the storing of a
-- file, the sources of a configuration, the merge, and the recursion over imports.
pub mod Store
pub mod Sources
pub mod Merge
pub mod Imports
pub mod Written
pub mod Rooted
pub mod Ends
pub mod Total
pub mod Merged
pub mod Decoded
pub mod Default
pub mod Tests
use eirctl.Prelude.{
  ℕ, Bool, true, false, List, [], ◌∷◌, Option, none, some, Text, codes, Map, Result, ok, err,
  if◌then◌else◌, text_eq, has_prefix, ◌==◌,
}
use eirctl.Strings.{is_empty}
use eirctl.Config.Definitions.{ImportEntry, ConfigDefinition}

-- What a reader gives: a text, and then its end, or an error if it is broken.
pub record Stream : Type 0 where
  pub text : Text
  pub is_broken : Bool

-- A copy from a reader to a file: what came to the file, what was taken from the reader, and
-- whether the copy failed.
pub record Copy : Type 0 where
  pub written : Text
  pub taken : Text
  pub is_failed : Bool

pub data Decoder : Type 0 where
  decoder unmarshal : Decoder

-- A file that was written in a directory, with the entry that asked for it; it is whole if the
-- copy to it did not fail.
pub record Write : Type 0 where
  pub base_dir : Text
  pub entry : ImportEntry
  pub dest : Text
  pub content : Text
  pub is_whole : Bool

pub record LoadState : Type 0 where
  pub imports : List Text
  pub cache : Map Text
  pub writes : List Write

-- What an error is about; the messages of the calls around it are left out.
pub data LoadFault : Type 0 where
  hash_format hash_algorithm hash_mismatch path_traversal mkdir_failed create_failed copy_failed
        read_failed cache_failed request_failed not_found git_failed not_decoded :
      Text → LoadFault
  import_missing glob_failed : Text → LoadFault
  clash : (kind path name : Text) → LoadFault
  out_of_fuel : LoadFault

-- What the loader takes from libraries and from the machine. The files that can be read depend on
-- those that have been written. `work_dir` is the working directory in which the loader was made.
pub record Host : Type 0 where
  pub work_dir : Text
  pub clean : Text → Text
  pub join : Text → Text → Text
  pub is_abs : Text → Bool
  pub dir_of : Text → Text
  pub is_url : Text → Bool
  pub cache_path : Text → Text
  pub digest : Text → Text
  pub can_make_dir : Text → Bool
  pub can_create : Text → Bool
  pub copy : Text → Stream → Copy
  pub read_cache : Text → Text → Stream
  pub http_get : Text → Option (ℕ × Stream)
  pub git_file : Text → Option Stream
  pub file_exists : List Write → Text → Bool
  pub open_file : List Write → Text → Option Stream
  pub is_dir : List Write → Text → Option Bool
  pub glob : List Write → Text → Option (List Text)
  pub decode : Decoder → Stream → Option ConfigDefinition

-- A result with the state in which it leaves the disk.
abbrev pub LoadOutcome : Type 0 → Type 0
LoadOutcome A = LoadState × Result LoadFault A

infixl 5 ◌andthen◌
abbrev pub ◌andthen◌ :
    {A B : Type 0} → LoadOutcome A → (LoadState → A → LoadOutcome B) → LoadOutcome B
(s, err fault) andthen next = (s, err fault)
(s, ok a) andthen next = next s a

unfoldable pub is_git : Text → Bool
is_git raw = has_prefix raw (codes "git::")

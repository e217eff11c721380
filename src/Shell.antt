-- ===== src/Shell.antt =====
-- The shell resolver: the schema of catalog files, the plan of a launch, and the errors
-- (crates/psroot-shell-resolver/src). A path is its text.
use psroot.Prelude.{ℕ, Bool, true, false, Option, none, some, List, [], ◌∷◌, ◌++◌, if◌then◌else◌}
use psroot.Text.{Text, codes, text_eq}
pub mod Version
pub mod Order
pub mod Substitute
pub mod Template
pub mod Catalog
pub mod Entries
pub mod Resolve
pub mod Plans

pub data ShellResolverError : Type 0 where
  unknown_shell shell_not_installed invalid_capability placeholder_unknown :
      Text → ShellResolverError
  version_mismatch : Text → Text → Text → ShellResolverError
  io : ShellResolverError

pub data Result (A : Type 0) : Type 0 where
  ok : A → Result A
  err : ShellResolverError → Result A

infixl 5 ◌>>=◌
abbrev pub ◌>>=◌ : {A B : Type 0} → Result A → (A → Result B) → Result B
ok a >>= f = f a
err e >>= f = err e

abbrev pub ok_or : {A : Type 0} → ShellResolverError → Option A → Result A
ok_or e none = err e
ok_or e (some a) = ok a

-- `collect` into a result: the first error ends it.
abbrev pub map_ok : {A B : Type 0} → (A → Result B) → List A → Result (List B)
map_ok f [] = ok []
map_ok f (x ∷ xs) = do y ← f x; ys ← map_ok f xs; ok (y ∷ ys)

pub record StageRule : Type 0 where
  pub op : Text
  pub src : Option Text
  pub dst : Text
  pub exclude : List Text
  pub content : Option Text

pub record AceRule : Type 0 where
  pub path : Text
  pub access : Text
  pub inherit : Bool

pub record LaunchRule : Type 0 where
  pub entry : Text
  pub args : List Text
  pub cwd : Text
  pub env : List (Text × Text)

-- What is probed, and the display name, are read by the probe alone, which is a parameter.
pub record CatalogFile : Type 0 where
  pub name : Text
  pub aliases : List Text
  pub stage : List StageRule
  pub ace : List AceRule
  pub launch : LaunchRule
  pub caps_when_outbound : List Text
  pub caps_when_full : List Text
  pub min_version : Option (Option Text)

pub data KnownCapability : Type 0 where
  internet_client internet_client_server private_network_client_server : KnownCapability

abbrev pub capability_name : KnownCapability → Text
capability_name KnownCapability.internet_client = codes "internetClient"
capability_name KnownCapability.internet_client_server = codes "internetClientServer"
capability_name KnownCapability.private_network_client_server = codes "privateNetworkClientServer"

unfoldable pub from_name : Text → Option KnownCapability
from_name s =
    if text_eq s (codes "internetClient")
    then some KnownCapability.internet_client
    else if text_eq s (codes "internetClientServer")
    then some KnownCapability.internet_client_server
    else if text_eq s (codes "privateNetworkClientServer")
    then some KnownCapability.private_network_client_server
    else none

-- The access is read and execute, the only mask there is.
pub record AceGrant : Type 0 where
  pub path : Text
  pub inherit : Bool

pub data StageOp : Type 0 where
  ensure_dir : Text → StageOp
  hardlink_tree copy_tree : Text → Text → List Text → StageOp
  junction symlink : Text → Text → StageOp
  write_text : Text → Text → StageOp

pub record LaunchPlan : Type 0 where
  pub shell_name : Text
  pub host_source_version : Text
  pub cache_key : Text
  pub cache_dir : Text
  pub entry : Text
  pub args : List Text
  pub cwd : Text
  pub env : List (Text × Text)
  pub stage : List StageOp
  pub aces : List AceGrant
  pub caps : List KnownCapability

-- ===== src/Tun.antt =====
-- mihomotui/tun_routing_linux.go: the data that the routing functions work on, and the host they
-- work through.
pub mod Actions
pub mod Commands
pub mod Policy
pub mod Preflight
pub mod Nft
pub mod Legacy
pub mod Setup
pub mod ReadOnly
pub mod Refusal
pub mod Justified
use mihomo_loongnix.Prelude.{ℕ, String, Bool, List, Option}

pub record Command : Type 0 where
  pub name : String
  pub args : List String

-- `tunRoutingState`, the contents of the state file.
pub record TunState : Type 0 where
  pub version : ℕ
  pub phase : String
  pub instance_id : String
  pub interface : String
  pub gateway : String
  pub routing_table : String
  pub private_rule_pref : String
  pub mark_rule_pref : String
  pub firewall_backend : String
  pub connection_mark : String
  pub connection_mask : String
  pub nft_table : String
  pub created_at : String

-- What reading `tun-routing-state.json` meets: no file, a file that cannot be read or parsed, or a
-- state.
pub data StateFile : Type 0 where
  missing unreadable : StateFile
  holds : TunState → StateFile

-- What a command printed, and the error it ended with.
pub record Outcome : Type 0 where
  pub output : String
  pub error : Option String

pub record TunLink : Type 0 where
  pub if_name : String
  pub info_kind : String

pub record TunRoute : Type 0 where
  pub dst : String
  pub dev : String

-- A decoded JSON value, as far as the search for a jump target looks at it.
mutual
  pub data Json : Type 0 where
    atom : Json
    text : String → Json
    array : Items → Json
    object : Fields → Json

  pub data Items : Type 0 where
    no_item : Items
    item : Json → Items → Items

  pub data Fields : Type 0 where
    no_field : Fields
    field : String → Json → Fields → Fields

pub record ChainLocation : Type 0 where
  pub family : String
  pub table : String
  pub chain : String

pub record NftJsonRule : Type 0 where
  pub location : ChainLocation
  pub handle : ℕ
  pub expr : List Json

-- One object of the ruleset: it may have a chain and it may have a rule.
pub record NftObject : Type 0 where
  pub as_chain : Option ChainLocation
  pub as_rule : Option NftJsonRule

-- The code outside the repository, over a machine that commands change: the executor, the JSON
-- decoder, `strconv.Quote` and `strconv.FormatUint`, `exec.LookPath`, `os.Geteuid`, the random
-- bytes in hexadecimal, the clock, and the failures of the file system on the state file. `rounds`
-- bounds the loops that repeat a command until it fails.
pub record Host (M : Type 0) : Type 0 where
  pub execute : Command → String → M → Outcome × M
  pub decode_links : String → Option (List TunLink)
  pub decode_routes : String → Option (List TunRoute)
  pub decode_ruleset : String → Option (List NftObject)
  pub quote : String → String
  pub format : ℕ → String
  pub has_nft : Bool
  pub has_iptables : Bool
  pub euid : ℕ
  pub random_hex : Option String
  pub now : String
  pub write_fails : M → Bool
  pub remove_fails : M → Bool
  pub rounds : Command → M → ℕ

-- A command that was run on an input, what came back, and what the state file was then.
pub record Step : Type 0 where
  pub command : Command
  pub input : String
  pub outcome : Outcome
  pub file : StateFile

-- The machine, the state file, and the commands run so far, the last one first. The code keeps no
-- such list: no function reads it.
pub record Tun (M : Type 0) : Type 0 where
  pub machine : M
  pub saved : StateFile
  pub trace : List Step

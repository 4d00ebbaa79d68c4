-- ===== src/Node/Example.antt =====
-- Concrete answers of the other crates, on which the tests of the node run.
use moonbeam.Base.{ℕ, refl, false, true, none, some, List, [], ◌∷◌, ◌++◌}
use moonbeam.Node.Inherents.{Register}
use moonbeam.Node.Inherents.Mock.{Registers}
use moonbeam.Node.Sealing.{manual}
use moonbeam.Node.Cli.{Cli}
use moonbeam.Node.Service.{Crates}
use moonbeam.Node.Command.{Tools}
use moonbeam.Node.Command.ParachainId.{Extends}

unfoldable pub register_provider : Register
register_provider p providers = some (providers ++ p ∷ [])

unfoldable pub encode : ℕ → List ℕ
encode account = account ∷ []

pub register_provider-Registers : Registers register_provider
unfolding register_provider
register_provider-Registers p providers fresh = refl

abbrev pub crates : Crates
crates = record {
  register_provider = register_provider;
  register_error = 1;
  encode = encode;
  fails = λ e. none;
}

-- The chain "local", and a relay chain that is found
abbrev pub tools : Tools
tools = record {
  chain_id = "local";
  config = record { is_light = false; offchain_worker_enabled = true };
  base_path = none;
  alphanet = none;
  stagenet = none;
  from_json_file = λ path. none;
  get_extension = λ spec. some spec.extensions;
  build_storage = λ spec. none;
  code_key = 0;
  genesis_header = λ spec. some (spec.genesis.parachain_id ∷ []);
  hex = λ bytes. bytes;
  relay_alphanet = none;
  relay_stagenet = none;
  polkadot_load_spec = λ id. some 5;
  relay_chain_id = λ arguments. "";
  error = 2;
}

pub tools-Extends : Extends tools
tools-Extends spec = refl

-- A collator with an author for the parachain 2000
abbrev pub collating : Cli
collating = record {
  subcommand = none;
  run = record {
    validator = false;
    dev = false;
    parachain_id = some 2000;
    dev_service = false;
    sealing = manual;
    author_id = some 7;
  };
  collator = true;
  relaychain_args = [];
}

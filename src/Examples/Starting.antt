-- ===== src/Examples/Starting.antt =====
-- The start of a coordinator, from a configuration with LND, without and with the observer.
use open_world_model.Base.{◌≡◌, refl, true, some, none}
use open_world_model.Base.Text.{codes}
use open_world_model.Config.{Config}
use open_world_model.Observer.{client_key}
use open_world_model.Startup.{Host, start}
use open_world_model.Startup.Roles.{Gives}
use open_world_model.Startup.Treasury.{IsReady, ReadsKey, start-IsReady}
use open_world_model.Startup.Success.{Works}
use open_world_model.Examples.Fixtures.{milli, toy, pubkey}
use open_world_model.Examples.Numbers.{config, accepted_seed, seed, toy-Laws, receipt}
use open_world_model.Examples.Exchanges.{registry, cln_server, json}

-- Every file holds the seed, and every call succeeds.
abbrev pub host : Host
host = record {
  read_file = λ path. some seed;
  dials = λ h cert. true;
  has_certs = λ ca. true;
  has_key_pair = λ cert key. true;
  cln_server = cln_server;
  cln_json = json;
  cln_id = λ body. none;
  lnd_info = λ client. some pubkey;
}

pub host-Works : Works host
host-Works = record {
  reads = λ path. (seed, refl);
  connects = λ h cert. refl;
  parses = λ ca. refl;
  pairs = λ cert key. refl;
}

abbrev observed : Config milli.F
observed = record config {
  observer = record {
    enabled = true;
    api_endpoint = codes "https://o";
    signing_key_path = codes "k";
  };
}

reads-key : ReadsKey toy toy-Laws host observed.observer
reads-key raw key e h =
    let s : seed ≡ raw = cc in
    let k : client_key toy seed ≡ some key = rw s h in (seed, refl, given k)
  where
    given : client_key toy seed ≡ some key → key ≡ toy.key_from_seed seed
    given k = let a : client_key toy seed ≡ some (toy.key_from_seed seed) = accepted_seed in cc

start-IsReady_example :
    Gives
      (λ k.
        IsReady toy toy-Laws host observed.observer k.lightning.readonly registry receipt
          k.observer)
      (start milli toy host observed)
start-IsReady_example = start-IsReady toy toy-Laws milli host observed registry receipt reads-key

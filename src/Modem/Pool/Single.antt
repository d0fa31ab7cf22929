-- ===== src/Modem/Pool/Single.antt =====
-- core/modem.py: `SingleModemProvider` as the provider of a pool.
use sim_bridge.Modem.Provider.{SingleModemProvider, list_modems, set_call_active}
use sim_bridge.Modem.Pool.{Provider}

instance abbrev pub single_provider : Provider SingleModemProvider
single_provider = record {
  list_modems = list_modems;
  set_call_active = λ p id active. (set_call_active p id active).0;
}

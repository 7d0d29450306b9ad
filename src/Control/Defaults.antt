-- ===== src/Control/Defaults.antt =====
-- The device that homelink/cli/ctl.py takes by default.
use homelink.Common.{◌≡◌, refl, ap, Bool, true, none, length}
use homelink.Common.Dict
use homelink.Common.Dict.{Dict}
use homelink.Common.Exc.{ok}
use homelink.Common.Json.{str, item, get}
use homelink.Config.Store.{ConfigManager, is_initialized}
use homelink.Devices.Loading.{Libraries}
use homelink.Keys.{public_info, fingerprint}
use homelink.Setup.{setup, Answers, Random, self_info}
use homelink.Setup.Start.{own_id, devices, info, generate-identity, setup-final}
use homelink.Setup.Loads.{config-there, devices-there, end, document, read_devices-there}
use homelink.Control.{target, make_client, choose_target, first_approved}

module _ (l : Libraries) (m : ConfigManager) (a : Answers) (r : Random) (can_chmod : Bool) where
  choose_target-own :
      choose_target (ok (devices l m a r (info l m a r))) ≡ target (str (own_id l m a r))
  unfolding choose_target first_approved self_info item get Dict.insert Dict.lookup public_info
      fingerprint
  choose_target-own = refl

  is_initialized-there : is_initialized (end l m a r can_chmod) ≡ true
  unfolding is_initialized Dict.has_key
  is_initialized-there =
      rw (config-there l m a r can_chmod, is_initialized, devices-there l m a r can_chmod) refl

  make_client-there :
      l.codec.loads (l.codec.dumps (document l m a r can_chmod)) ≡ ok (document l m a r can_chmod)
      → make_client l.codec l.lib.vault can_chmod (end l m a r can_chmod) none
        ≡ (target (str (own_id l m a r)), end l m a r can_chmod)
  unfolding make_client
  make_client-there reads =
      rw
        (
          is_initialized-there,
          make_client,
          read_devices-there l m a r can_chmod reads,
          choose_target-own,
        )
        refl

-- After `setup` into a place without devices, a command without the option `--device` is for the
-- device itself, if the seeds are accepted by the key libraries, the seed has 32 bytes and the
-- document of the devices is read as it was written.
pub make_client-setup :
    (l : Libraries) (m : ConfigManager) (a : Answers) (r : Random) (can_chmod : Bool)
    → Dict.lookup "devices.json" m.files ≡ none
    → length r.seed ≡ 32
    → l.lib.signing_key r.seed ≡ ok r.seed
    → l.lib.dh_private r.dh_seed ≡ ok r.dh_seed
    → l.codec.loads (l.codec.dumps (document l m a r can_chmod)) ≡ ok (document l m a r can_chmod)
    → (make_client l.codec l.lib.vault can_chmod (setup l m a r can_chmod).1 none).0
      ≡ target (str (own_id l m a r))
make_client-setup l m a r can_chmod fresh seeded key_ok dh_ok reads =
    let made = generate-identity l m a r seeded key_ok dh_ok in
    rw (setup-final l m a r can_chmod fresh made)
      (ap (λ r. r.0) (make_client-there l m a r can_chmod reads))

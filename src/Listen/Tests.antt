-- ===== src/Listen/Tests.antt =====
-- A system with one socket at `/s`, which is listened on or stale.
use kino.Prelude.{◌≡◌, ◌≢◌, refl, true, some, codes}
use kino.Names.{unix_path}
use kino.Control.{strip_prefix}
use kino.Listen.{
  Os, Connect, connected, refused, removed, unix, bind, bind_unix, reclaim, bind_at, listener_of,
}
use kino.Listen.Claimed.{bind-probed}

abbrev one_socket : Os
one_socket = record {
  State = Connect;
  connect = λ s path. s;
  remove_file = λ s path. (Connect.not_found, removed);
  bind_socket = λ s path. (connected, true);
  bind_tcp = λ s name port. (s, some port);
}

found : unix_path (codes "unix:///s") ≡ some (codes "/s")
unfolding unix_path strip_prefix
found = refl

reclaims : bind one_socket refused (codes "unix:///s") 0 ≡ (connected, unix (codes "/s"))
unfolding bind bind_unix reclaim bind_at listener_of unix_path strip_prefix
reclaims = refl

bind-probed_example : (codes "/s" ≡ codes "/s") × (refused ≢ connected) × (refused ≢ Connect.failed)
bind-probed_example =
    bind-probed one_socket refused connected (codes "unix:///s") (codes "/s") (codes "/s") 0 found
      reclaims

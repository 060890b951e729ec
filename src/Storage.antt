-- ===== src/Storage.antt =====
-- src/proto_storage.c: the lock of the device's disks.
use encedo_hem_c_api.Prelude.{
  Bool, true, false, ◌||◌, not, none, some, [], ◌++◌, Bytes, codes, decimal, ◌==◌, if◌then◌else◌,
}
use encedo_hem_c_api.Prelude.Int.{ℤ, pos, pos_part, ltb_ℤ}
use encedo_hem_c_api.Rc.{Rc, protocol}
use encedo_hem_c_api.Env.{Env, Result, ok, err, get}
use encedo_hem_c_api.Context.{Ctx}
use encedo_hem_c_api.Device.{device_raw}
use encedo_hem_c_api.Binding.{clear_last_error, require}
use encedo_hem_c_api.Monad.{Prog, attempt, get_ctx, throw, ◌>>=◌, ◌>>◌}

unfoldable pub disk_ok : ℤ → Bool
disk_ok disk = not (ltb_ℤ disk (pos 0) || ltb_ℤ (pos 2) disk)

abbrev pub mode_of : Bool → Bytes
mode_of true = codes ":rw"
mode_of false = []

-- A token for one disk, and for writing or for reading.
unfoldable pub unlock_scope : ℤ → Bool → Bytes
unlock_scope disk writable = codes "storage:disk" ++ decimal (pos_part disk) ++ mode_of writable

module _ ⦃E : Env⦄ where
  -- An empty reply of 200 is what success looks like.
  abbrev pub unless_done : Rc → Ctx → Prog (Unit {0})
  unless_done protocol ctx =
      if ctx.last_error.http_status == 200 then clear_last_error else throw protocol
  unless_done rc ctx = throw rc

  abbrev pub done_if_empty : Result Bytes → Prog (Unit {0})
  done_if_empty (ok body) = clear_last_error
  done_if_empty (err rc) = do ctx ← get_ctx; unless_done rc ctx

  unfoldable pub storage_call : Bytes → Bytes → Prog (Unit {0})
  storage_call path scope = do r ← attempt (device_raw get path none (some scope)); done_if_empty r

  unfoldable pub storage_unlock : ℤ → Bool → Prog (Unit {0})
  storage_unlock disk writable = do
    clear_last_error
    require (disk_ok disk) (codes "storage/unlock: disk must be 0..2")
    storage_call (codes "/api/storage/unlock") (unlock_scope disk writable)

  unfoldable pub storage_lock : ℤ → Prog (Unit {0})
  storage_lock disk = do
    clear_last_error
    require (disk_ok disk) (codes "storage/lock: disk must be 0..2")
    storage_call (codes "/api/storage/lock") (unlock_scope disk false)

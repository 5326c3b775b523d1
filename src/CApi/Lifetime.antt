-- ===== src/CApi/Lifetime.antt =====
-- OpenFilterDriver and CloseFilterDriver of ndisapi/ndisapi.cpp: what opening takes.
use ndisapi.Base.{◌+◌, ◌≡◌, Bool, some}
use ndisapi.Exec.{Env, World, bind_run, pure_run}
use ndisapi.Api.{Api}
use ndisapi.Api.Adapters.Balance.{owned, InBounds, destruct-construct}
use ndisapi.CApi.{open_filter_driver, close_filter_driver}

module _ {S : Type 0} (env : Env S) where
  -- The handle that OpenFilterDriver returns is of an object, and CloseFilterDriver gives back what
  -- opening took.
  close-open :
      (win64 : Bool) (w : World S)
      → InBounds env
      → (api : Api) × (w1 : World S) × (w2 : World S) × (open_filter_driver env win64 w
          ≡ some (some api, w1))
        × (w1.open_handles ≡ w.open_handles + owned api.file_open api.has_event)
        × (close_filter_driver env (some api) w1 ≡ some (tt, w2))
        × (w2.open_handles ≡ w.open_handles)
  unfolding open_filter_driver close_filter_driver
  close-open win64 w fits =
      let (api, w1, w2, opened, held, closed, back) = destruct-construct env win64 w fits in
      (api, w1, w2, bind_run _ _ opened (pure_run (some api) w1), held, closed, back)

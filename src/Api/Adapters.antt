-- ===== src/Api/Adapters.antt =====
-- CNdisApi::GetTcpipBoundAdaptersInfo, which brings the table of CWow64Helper up to date, and the
-- constructor and destructor.
pub mod Known
pub mod Balance
use ndisapi.Base.{
  ℕ, ◌-◌, ◌^◌, Bool, true, false, not, ◌&&◌, Option, none, some, List, ◌++◌, map, length, take,
  replicate, leb, if◌then◌else◌,
}
use ndisapi.Driver.{AdapterList, get_tcpip_interfaces}
use ndisapi.Driver.Sizes.{sizeof_adapter_list, sizeof_adapter_list_wow64}
use ndisapi.Handles.{HandleTable, adapter_list_size, from_64_to_32, update}
use ndisapi.Exec.{
  Env, Exec, pure, lift, ask, get_table, put_table, create_file, create_event, close_handle, ◌>>=◌,
  ◌>>◌,
}
use ndisapi.Api.{Api, thunks, pointer, device_io_control}

-- TCP_AdapterList_WOW64 adaptersList = { 0 }; and the caller's list after ZeroMemory
pub zero_list : AdapterList
zero_list = record {
  count = 0;
  names = replicate 32 (replicate 256 0);
  handles = replicate 32 0;
  mediums = replicate 32 0;
  addresses = replicate 32 (replicate 6 0);
  mtus = replicate 32 0;
}

-- The handles of the caller's list: the numbers of the adapters that the list counts, then zeros.
pub numbers : HandleTable → AdapterList → List ℕ
numbers t list =
    map (from_64_to_32 t) (take list.count list.handles)
    ++ replicate (adapter_list_size - list.count) 0

module _ {S : Type 0} (env : Env S) (api : Api) where
  pub list_back : AdapterList → Bool × AdapterList → Exec S (Bool × AdapterList)
  unfolding numbers
  list_back list (true, list64) = do
    t ← get_table
    t' ← lift (update t list64.count list64.handles)
    put_table t'
    pure (true, record list64 { handles = numbers t' list64 })
  list_back list (false, list64) = pure (false, list)

  pub adapters_info : AdapterList → Exec S (Bool × AdapterList)
  unfolding list_back device_io_control
  adapters_info list =
      if thunks api
      then (do
        reply ←
            device_io_control env api true get_tcpip_interfaces zero_list sizeof_adapter_list_wow64
              zero_list sizeof_adapter_list_wow64
        list_back list reply)
      else device_io_control env api false get_tcpip_interfaces list
          (sizeof_adapter_list (pointer api)) list (sizeof_adapter_list (pointer api))

module _ {S : Type 0} (env : Env S) where
  -- IsWow64Process is looked up from Windows XP on.
  pub detect_wow64 : Exec S Bool
  detect_wow64 = do
    kernel32 ← ask env.has_kernel32
    found ← ask env.has_is_wow64_process
    reported ← ask env.is_wow64_process
    pure (env.is_windows_xp_or_greater && kernel32 && found && reported)

  -- The driver's file and the event of m_ovlp: m_hFileHandle, m_ovlp.hEvent, m_bIsLoadSuccessfully.
  pub open_driver : Exec S (Bool × Bool)
  open_driver = do
    opened ← create_file env
    if opened
        then (do has_event ← create_event env; pure (true, has_event))
        else pure (false, false)

  pub construct : Bool → Exec S Api
  unfolding detect_wow64 open_driver adapters_info
  construct win64 = do
    handles ← open_driver
    wow64 ← detect_wow64
    let api : Api = record {
      win64 = win64;
      file_open = handles.0;
      has_event = handles.1;
      is_load_successfully = handles.1;
      is_wow64_process = wow64;
    }
    if wow64 then (do adapters_info env api zero_list; pure api) else pure api

-- The destructor.
pub destruct : {S : Type 0} → Api → Exec S Unit
destruct api = do
  (if api.file_open then close_handle else pure tt)
  if api.has_event then close_handle else pure tt

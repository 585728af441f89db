-- ===== src/Ipc/Status.antt =====
-- The statuses of plugin/src/rvc/ipc/rvc-ipc.h and of
-- plugin/src/rvc/ipc/base/base-transport-status.hpp, and the map between them.
use obs_rvc.Prelude.{Bool, true, false}

-- `enum class BaseTransportStatus`
pub data TransportStatus : Type 0 where
  ok remote_error transport_error timeout : TransportStatus

-- `enum rvc_ipc_status`
pub data IpcStatus : Type 0 where
  ok worker_error invalid_argument transport_error timeout : IpcStatus

abbrev pub to_ipc_status : TransportStatus → IpcStatus
to_ipc_status TransportStatus.ok = IpcStatus.ok
to_ipc_status TransportStatus.remote_error = IpcStatus.worker_error
to_ipc_status TransportStatus.transport_error = IpcStatus.transport_error
to_ipc_status TransportStatus.timeout = IpcStatus.timeout

-- `status == RVC_IPC_STATUS_OK`
abbrev pub is_ok : IpcStatus → Bool
is_ok IpcStatus.ok = true
is_ok IpcStatus.worker_error = false
is_ok IpcStatus.invalid_argument = false
is_ok IpcStatus.transport_error = false
is_ok IpcStatus.timeout = false

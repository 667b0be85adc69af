-- ===== src/Protocol/Codes.antt =====
-- The enumerations that travel as `int`: `op_code`, `pid_status` and `set_instruction`.
use so_project_c.Common.{ℕ, ◌<◌, ◌≡◌, refl, Option, some, List, [], ◌∷◌, arith, get_elem?}

pub data OpCode : Type 0 where
  mensaje paquete instruction wait_recurso signal_recurso pcb io io_success io_error : OpCode
  init_pid init_pid_success init_pid_error : OpCode
  init_script init_script_success init_script_error : OpCode
  end_pid end_pid_user interrupt : OpCode
  mem_page_size mem_resize mem_read mem_write mem_pid_page mem_success mem_error : OpCode

abbrev pub op_value : OpCode → ℕ
op_value mensaje = 0
op_value paquete = 1
op_value instruction = 2
op_value wait_recurso = 3
op_value signal_recurso = 4
op_value pcb = 5
op_value io = 6
op_value io_success = 7
op_value io_error = 8
op_value init_pid = 9
op_value init_pid_success = 10
op_value init_pid_error = 11
op_value init_script = 12
op_value init_script_success = 13
op_value init_script_error = 14
op_value end_pid = 15
op_value end_pid_user = 16
op_value interrupt = 17
op_value mem_page_size = 18
op_value mem_resize = 19
op_value mem_read = 20
op_value mem_write = 21
op_value mem_pid_page = 22
op_value mem_success = 23
op_value mem_error = 24

abbrev op_codes : List OpCode
op_codes =
    mensaje ∷ paquete ∷ instruction ∷ wait_recurso ∷ signal_recurso ∷ pcb ∷ io ∷ io_success
    ∷ io_error ∷ init_pid ∷ init_pid_success ∷ init_pid_error ∷ init_script ∷ init_script_success
    ∷ init_script_error ∷ end_pid ∷ end_pid_user ∷ interrupt ∷ mem_page_size ∷ mem_resize ∷ mem_read
    ∷ mem_write ∷ mem_pid_page ∷ mem_success ∷ mem_error ∷ []

-- The enumerator that a received `int` names; `none` falls to the `default` of a `switch`.
pub op_of : ℕ → Option OpCode
op_of n = get_elem? op_codes n

pub data PidStatus : Type 0 where
  new ready running running_quantum running_signal terminated terminated_user : PidStatus
  blocked_io blocked_wait error error_io error_interface error_resource error_memory : PidStatus

abbrev pub status_value : PidStatus → ℕ
status_value new = 0
status_value ready = 1
status_value running = 2
status_value running_quantum = 3
status_value running_signal = 4
status_value terminated = 5
status_value terminated_user = 6
status_value blocked_io = 7
status_value blocked_wait = 8
status_value error = 9
status_value error_io = 10
status_value error_interface = 11
status_value error_resource = 12
status_value error_memory = 13

abbrev statuses : List PidStatus
statuses =
    new ∷ ready ∷ running ∷ running_quantum ∷ running_signal ∷ terminated ∷ terminated_user
    ∷ blocked_io ∷ blocked_wait ∷ error ∷ error_io ∷ error_interface ∷ error_resource ∷ error_memory
    ∷ []

pub status_of : ℕ → Option PidStatus
status_of n = get_elem? statuses n

pub data SetInstruction : Type 0 where
  set sum sub jnz mov_in mov_out resize copy_string wait signal : SetInstruction
  io_stdin_read io_stdout_write io_gen_sleep : SetInstruction
  io_fs_create io_fs_delete io_fs_truncate io_fs_write io_fs_read : SetInstruction
  exit unknown : SetInstruction

abbrev pub instruction_value : SetInstruction → ℕ
instruction_value set = 0
instruction_value sum = 1
instruction_value sub = 2
instruction_value jnz = 3
instruction_value mov_in = 4
instruction_value mov_out = 5
instruction_value resize = 6
instruction_value copy_string = 7
instruction_value wait = 8
instruction_value signal = 9
instruction_value io_stdin_read = 10
instruction_value io_stdout_write = 11
instruction_value io_gen_sleep = 12
instruction_value io_fs_create = 13
instruction_value io_fs_delete = 14
instruction_value io_fs_truncate = 15
instruction_value io_fs_write = 16
instruction_value io_fs_read = 17
instruction_value exit = 18
instruction_value unknown = 19

abbrev instructions : List SetInstruction
instructions =
    set ∷ sum ∷ sub ∷ jnz ∷ mov_in ∷ mov_out ∷ resize ∷ copy_string ∷ wait ∷ signal ∷ io_stdin_read
    ∷ io_stdout_write ∷ io_gen_sleep ∷ io_fs_create ∷ io_fs_delete ∷ io_fs_truncate ∷ io_fs_write
    ∷ io_fs_read ∷ exit ∷ unknown ∷ []

pub instruction_of : ℕ → Option SetInstruction
instruction_of n = get_elem? instructions n

op_of-op_value : (c : OpCode) → op_of (op_value c) ≡ some c
unfolding op_of
op_of-op_value mensaje = refl
op_of-op_value _ = refl

pub status_of-status_value : (s : PidStatus) → status_of (status_value s) ≡ some s
unfolding status_of
status_of-status_value new = refl
status_of-status_value _ = refl

pub instruction_of-instruction_value :
    (i : SetInstruction) → instruction_of (instruction_value i) ≡ some i
unfolding instruction_of
instruction_of-instruction_value set = refl
instruction_of-instruction_value _ = refl

pub op_value-lt : (c : OpCode) → op_value c < 25
op_value-lt mensaje = omega arith
op_value-lt _ = omega arith

pub status_value-lt : (s : PidStatus) → status_value s < 14
status_value-lt new = omega arith
status_value-lt _ = omega arith

pub instruction_value-lt : (i : SetInstruction) → instruction_value i < 20
instruction_value-lt set = omega arith
instruction_value-lt _ = omega arith

-- ===== src/Protocol/Tests.antt =====
-- The messages at concrete values.
use so_project_c.Common.{ℕ, ◌≡◌, some, List, [], ◌∷◌, ◌++◌, arith, bytes_u32, stored, IsText}
use so_project_c.Common.Ints.{a_int}
use so_project_c.Protocol.Codes.{OpCode, SetInstruction, PidStatus}
use so_project_c.Protocol.Packet.{enviar_paquete, crear_paquete}
use so_project_c.Protocol.Receive.{llega, tras_operacion}
use so_project_c.Protocol.Pcb.{
  Pcb, IsPcb, recibir_pcb, agregar_pcb_paquete, recibir_pcb-agregar_pcb,
}
use so_project_c.Protocol.Mem.{
  recibir_pid_con_uint32, recibir_mem_write, recibir_mem_read, recibir_init_process,
  paquete_dos_uint, paquete_write, agregar_init_process_paquete, recibir_pid_con_uint32-paquete,
  recibir_mem_write-paquete, recibir_mem_read-paquete, recibir_init_process-agregar_init_process,
}
use so_project_c.Protocol.Io.{
  MemoriaFisica, recibir_io_serializado, agregar_io_serializado, get_io_frames, get_io_file,
  get_io_truncate, get_io_read_write,
}
use so_project_c.Protocol.Io.Trip.{
  pedido, frames_bytes, recibir_io_serializado-agregar, get_io_frames_lem,
}
use so_project_c.Protocol.Io.Files.{
  truncate_bytes, read_write_bytes, get_io_file_lem, get_io_truncate_lem, get_io_read_write_lem,
}

abbrev bloque : Pcb
bloque = record {
  pid = 3;
  pc = 5;
  quantum = 2000;
  registers = record {
    pc = 5;
    si = 1;
    di = 70000;
    ax = 255;
    bx = 0;
    cx = 1;
    dx = 2;
    eax = 4294967295;
    ebx = 256;
    ecx = 65536;
    edx = 0;
  };
  status = PidStatus.running_quantum;
  recursos = 82 ∷ 65 ∷ 44 ∷ [];
}

bloque-IsPcb : IsPcb bloque
bloque-IsPcb = record {
  pid_u32 = omega arith;
  pc_u32 = omega arith;
  quantum_u32 = omega arith;
  words =
      (omega arith, omega arith, omega arith, omega arith, omega arith, omega arith, omega arith);
  bytes = (omega arith, omega arith, omega arith, omega arith);
  text =
      ((omega arith, omega arith), ((omega arith, omega arith), ((omega arith, omega arith), tt)));
  short = omega arith;
}

recibir_pcb-agregar_pcb_example :
    tras_operacion recibir_pcb
      (enviar_paquete (agregar_pcb_paquete (crear_paquete OpCode.pcb) bloque) ++ (9 ∷ []))
    ≡ some ((llega 5, bloque), 9 ∷ [])
recibir_pcb-agregar_pcb_example = recibir_pcb-agregar_pcb OpCode.pcb bloque (9 ∷ []) bloque-IsPcb

recibir_pid_con_uint32-paquete_example :
    tras_operacion recibir_pid_con_uint32
      (enviar_paquete (paquete_dos_uint OpCode.mem_resize 3 300) ++ [])
    ≡ some ((llega 19, (3, 300)), [])
recibir_pid_con_uint32-paquete_example =
    recibir_pid_con_uint32-paquete OpCode.mem_resize 3 300 [] (omega arith) (omega arith)

recibir_mem_write-paquete_example :
    tras_operacion recibir_mem_write (enviar_paquete (paquete_write 70000 (1 ∷ 2 ∷ [])) ++ [])
    ≡ some ((llega 21, (70000, 1 ∷ 2 ∷ [])), [])
recibir_mem_write-paquete_example =
    recibir_mem_write-paquete 70000 (1 ∷ 2 ∷ []) [] (omega arith) (omega arith)

recibir_mem_read-paquete_example :
    tras_operacion recibir_mem_read
      (enviar_paquete (paquete_dos_uint OpCode.mem_read 70000 2) ++ [])
    ≡ some ((llega 20, (70000, 2)), [])
recibir_mem_read-paquete_example = recibir_mem_read-paquete 70000 2 [] (omega arith) (omega arith)

abbrev nombre : List ℕ
nombre = 70 ∷ 83 ∷ []

nombre-IsText : IsText nombre
nombre-IsText = ((omega arith, omega arith), ((omega arith, omega arith), tt))

recibir_init_process-agregar_init_process_example :
    tras_operacion recibir_init_process
      (enviar_paquete (agregar_init_process_paquete (crear_paquete OpCode.init_pid) 3 nombre) ++ [])
    ≡ some ((llega 9, record { pid = 3; path = nombre }), [])
recibir_init_process-agregar_init_process_example =
    recibir_init_process-agregar_init_process 3 nombre [] (omega arith) nombre-IsText (omega arith)

recibir_io_serializado-agregar_example :
    tras_operacion recibir_io_serializado (
      enviar_paquete (
        agregar_io_serializado
          (crear_paquete OpCode.io)
          (pedido SetInstruction.io_gen_sleep (57 ∷ 0 ∷ []))
          3)
      ++ [])
    ≡ some ((llega 6, (pedido SetInstruction.io_gen_sleep (57 ∷ 0 ∷ []), 3)), [])
recibir_io_serializado-agregar_example =
    recibir_io_serializado-agregar SetInstruction.io_gen_sleep (57 ∷ 0 ∷ []) 3 [] (omega arith)
      (omega arith)

abbrev dos_frames : List MemoriaFisica
dos_frames =
    record { direccion_fisica = 14; bytes = 2 }
    ∷ record { direccion_fisica = 70000; bytes = 300 }
    ∷ []

get_io_frames_lem_example :
    get_io_frames (pedido SetInstruction.io_stdin_read (bytes_u32 302 ++ frames_bytes dos_frames))
    ≡ some (302, dos_frames)
get_io_frames_lem_example =
    get_io_frames_lem SetInstruction.io_stdin_read 302 dos_frames (omega arith)
      ((omega arith, omega arith), ((omega arith, omega arith), tt))

get_io_file_lem_example :
    get_io_file (pedido SetInstruction.io_fs_create (stored nombre)) (47 ∷ []) ≡ some (47 ∷ nombre)
get_io_file_lem_example = get_io_file_lem SetInstruction.io_fs_create nombre (47 ∷ []) nombre-IsText

get_io_truncate_lem_example :
    get_io_truncate (pedido SetInstruction.io_fs_truncate (truncate_bytes nombre 300)) (47 ∷ [])
    ≡ some (some (47 ∷ nombre, a_int 300))
get_io_truncate_lem_example =
    get_io_truncate_lem SetInstruction.io_fs_truncate nombre (47 ∷ []) 300 nombre-IsText
      (omega arith) (omega arith)

get_io_read_write_lem_example :
    get_io_read_write
      (pedido SetInstruction.io_fs_write (read_write_bytes nombre 9 302 dos_frames))
      (47 ∷ [])
    ≡ some (47 ∷ nombre, record { frames = dos_frames; ptr = a_int 9; size = 302 })
get_io_read_write_lem_example =
    get_io_read_write_lem SetInstruction.io_fs_write nombre (47 ∷ []) 9 302 dos_frames nombre-IsText
      (omega arith) (omega arith) (omega arith)
      ((omega arith, omega arith), ((omega arith, omega arith), tt))

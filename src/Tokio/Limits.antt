-- ===== src/Tokio/Limits.antt =====
-- The constants at the top of tokio-btls/src/lib.rs.
use btls.Prelude.{ℕ, ◌*◌}

abbrev pub read_buf_capacity : ℕ
read_buf_capacity = 17 * 1024

abbrev pub write_buf_capacity : ℕ
write_buf_capacity = 64 * 1024

abbrev pub max_record : ℕ
max_record = 16 * 1024

abbrev pub record_overhead : ℕ
record_overhead = 64

abbrev pub seal_stack_len : ℕ
seal_stack_len = 17 * 1024

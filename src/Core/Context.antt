-- ===== src/Core/Context.antt =====
-- `struct yta_ctx` of src/core/yta_event_loop.h and the operations of src/core/yta_event_loop.c that
-- a callback calls to arm the next transfer: `yta_async_read`, `yta_async_write`,
-- `yta_async_sendfile`, `yta_async_timer` and `yta_set_close_callback`.
-- A callback is a name, of type `I` for `yta_io_callback` and `C` for `yta_callback`; `U` is what the
-- client keeps behind `user_data`. A buffer is its address.
use yotta.Prelude.{ℕ, ◌+◌, ◌%◌, ◌^◌, Bool, Option, none, some, if◌then◌else◌}
use yotta.Prelude.Int.{ℤ, pos, negsuc, is_zero}
use yotta.Core.Outcome.{Outcome, done, exited}

-- `size_t` wraps here.
abbrev pub size_mod : ℕ
size_mod = 2 ^ 64

pub data CallbackStatus : Type 0 where
  yta_ok yta_exit : CallbackStatus

pub data WriteType : Type 0 where
  basic_wtype sendfile_wtype : WriteType

-- `union yta_write_data`, by the member that was stored last.
pub data WriteData : Type 0 where
  basic_data : ℕ → WriteData
  sendfile_data : ℕ → WriteData

pub record Ctx (U I C : Type 0) : Type 0 where
  pub user_data : U
  pub fd : ℕ
  pub read_callback : Option I
  pub read_buf : ℕ
  pub already_read : ℕ
  pub to_read : ℕ
  pub write_callback : Option I
  pub wtype : WriteType
  pub wdata : WriteData
  pub already_written : ℕ
  pub to_write : ℕ
  pub close_callback : Option C
  pub timer_fd : ℤ
  pub timer_callback : Option C

-- What the kernel answers to the calls of `yta_async_timer`: the new descriptor, if there is one,
-- whether `epoll_ctl` added it, and whether `timerfd_settime` set it.
pub record TimerAnswers : Type 0 where
  pub created : Option ℕ
  pub added : Bool
  pub armed : Bool

created_fd : Option ℕ → ℤ
created_fd none = negsuc 0
created_fd (some fd) = pos fd

module _ {U I C : Type 0} where
  -- `calloc`, and the descriptor that the accept loop stores.
  unfoldable pub new_ctx : U → ℕ → Ctx U I C
  new_ctx user_data fd = record {
    user_data = user_data;
    fd = fd;
    read_callback = none;
    read_buf = 0;
    already_read = 0;
    to_read = 0;
    write_callback = none;
    wtype = basic_wtype;
    wdata = basic_data 0;
    already_written = 0;
    to_write = 0;
    close_callback = none;
    timer_fd = pos 0;
    timer_callback = none;
  }

  unfoldable pub async_read : Ctx U I C → I → ℕ → ℕ → Ctx U I C
  async_read ctx callback buf to_read = record ctx {
    read_callback = some callback;
    read_buf = buf;
    already_read = 0;
    to_read = to_read;
  }

  unfoldable pub async_write : Ctx U I C → I → ℕ → ℕ → Ctx U I C
  async_write ctx callback buf to_write = record ctx {
    wtype = basic_wtype;
    write_callback = some callback;
    wdata = basic_data buf;
    to_write = to_write;
    already_written = 0;
  }

  unfoldable pub async_sendfile : Ctx U I C → I → ℕ → ℕ → ℕ → Ctx U I C
  async_sendfile ctx callback fd to_write offset = record ctx {
    wtype = sendfile_wtype;
    write_callback = some callback;
    wdata = sendfile_data fd;
    to_write = (to_write + offset) % size_mod;
    already_written = offset;
  }

  -- A failed `timerfd_create` or `timerfd_settime` is only printed.
  unfoldable pub async_timer : Ctx U I C → C → TimerAnswers → Outcome (Ctx U I C)
  unfolding created_fd
  async_timer ctx callback answers =
      if is_zero ctx.timer_fd
      then (if answers.added
          then done
              (record ctx { timer_callback = some callback; timer_fd = created_fd answers.created })
          else exited 1)
      else done (record ctx { timer_callback = some callback })

  unfoldable pub set_close_callback : Ctx U I C → C → Ctx U I C
  set_close_callback ctx callback = record ctx { close_callback = some callback }

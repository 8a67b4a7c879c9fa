-- ===== src/ArchiveFs/Start/Stage.antt =====
-- The states on the way of the start of win32_archive_fs.c, and its buffer.
use libsamp.Common.{
  ℕ, zero, suc, ◌+◌, ◌≤◌, ◌≡◌, arith, Bool, some, List, [], ◌∷◌, ◌++◌, length, take, drop,
  length-append, length-take, length-drop,
}
use libsamp.Saa.Bytes.Laws.{AreBytes, AreBytes-take, AreBytes-drop}
use libsamp.ArchiveFs.Handlers.Views.{IsFs}
use libsamp.ArchiveFs.Setup.State.{State}
use libsamp.ArchiveFs.Setup.Load.{write_at}
use libsamp.ArchiveFs.Hooks.Back.{Slot}
use libsamp.ArchiveFs.Start.Left.{bit, block, IsLeft}

-- A state on the way of the start: which pointers it has, and the hooks' state is valid.
pub record IsStage {Os : Type 0} (IsBack : List Slot → Type 0) (extra : ℕ) (main script : Bool)
    (s : State Os) : Type 0 where
  pub left : IsLeft IsBack extra s
  pub valid : IsFs s.fs
  pub main_is : s.main_held ≡ main
  pub script_is : s.script_held ≡ script

-- `archive_data` has `size` bytes.
pub record HasBuffer {Os : Type 0} (size : ℕ) (s : State Os) : Type 0 where
  pub bytes : List ℕ
  pub is : s.archive_data ≡ some bytes
  pub room : length bytes ≡ size
  pub all : AreBytes bytes

AreBytes-append : (xs ys : List ℕ) → AreBytes xs → AreBytes ys → AreBytes (xs ++ ys)
AreBytes-append [] ys v w i = w i
AreBytes-append (x ∷ xs) ys v w zero = v 0
AreBytes-append (x ∷ xs) ys v w (suc i) = AreBytes-append xs ys (λ j. v (suc j)) w i

pub write_at-AreBytes :
    (total : ℕ) (copied buffer : List ℕ)
    → AreBytes copied
    → AreBytes buffer
    → AreBytes (write_at total copied buffer)
write_at-AreBytes total copied buffer v w =
    AreBytes-append (take total buffer) _ (AreBytes-take total buffer w)
      (AreBytes-append copied _ v (AreBytes-drop (total + length copied) buffer w))

pub length-write_at :
    (total : ℕ) (copied buffer : List ℕ)
    → total + length copied ≤ length buffer
    → length (write_at total copied buffer) ≡ length buffer
length-write_at total copied buffer h =
    let rest = drop (total + length copied) buffer in
    omega (
      arith,
      length-append (take total buffer) (copied ++ rest),
      length-append copied rest,
      length-take total buffer,
      length-drop (total + length copied) buffer,
    )

module _ {Os : Type 0} where
  -- A state whose system, count and archive size differ.
  pub IsStage-change :
      (IsBack : List Slot → Type 0) (extra extra' n size : ℕ) (main script : Bool) (s : State Os)
      (os : Os)
      → IsStage IsBack extra main script s
      → (s.held ≡ extra + (block s.archive_data + bit s.main_held + bit s.script_held)
          → n ≡ extra' + (block s.archive_data + bit s.main_held + bit s.script_held))
      → IsStage IsBack extra' main script (record s { held = n; os = os; archive_size = size })
  IsStage-change IsBack extra extra' n size main script s os v more = record {
    left = record {
      inactive = v.left.inactive;
      balanced = more v.left.balanced;
      uninstalled = v.left.uninstalled;
      same = v.left.same;
    };
    valid = v.valid;
    main_is = v.main_is;
    script_is = v.script_is;
  }

  pub HasBuffer-change :
      (n size archive_size : ℕ) (s : State Os) (os : Os)
      → HasBuffer size s
      → HasBuffer size (record s { held = n; os = os; archive_size = archive_size })
  HasBuffer-change n size archive_size s os b = record {
    bytes = b.bytes;
    is = b.is;
    room = b.room;
    all = b.all;
  }

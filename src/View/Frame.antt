-- ===== src/View/Frame.antt =====
-- BView: where a view stands in its parent, `fParentOffset`, and its own rectangle, `fBounds`. The
-- redraw of the parent is left out. LOG_FATAL_IF aborts the program at a negative size: `none`.
use libb.Prelude.{Option, none, some, ◌||◌, if◌then◌else◌}
use libb.Rect.{Scalar, Point, Rect, less, offset_to}

pub record Placed (F : Type 0) : Type 0 where
  pub offset : Point F
  pub bounds : Rect F

-- `floor` is `floorf`.
module _ {F : Type 0} (num : Scalar F) (zero_size : F) (floor : F → F) where
  -- The placement by the constructor, for a frame.
  unfoldable pub placed : Rect F → Placed F
  placed r = record {
    offset = record { x = floor r.left; y = floor r.top };
    bounds = offset_to num zero_size zero_size (record {
      left = floor r.left;
      top = floor r.top;
      right = floor r.right;
      bottom = floor r.bottom;
    });
  }

  -- `Frame()`
  unfoldable pub frame : Placed F → Rect F
  frame s = offset_to num ((s.offset).x) ((s.offset).y) s.bounds

  -- `MoveTo(x, y)` and `MoveBy(dh, dv)`
  unfoldable pub move_to : F → F → Placed F → Placed F
  move_to a b s = record s { offset = record { x = floor a; y = floor b } }

  unfoldable pub move_by : F → F → Placed F → Placed F
  move_by dh dv s = move_to (num.plus ((s.bounds).left) dh) (num.plus ((s.bounds).top) dv) s

  -- `ResizeTo(width, height)` and `ResizeBy(dh, dv)`
  unfoldable pub resize_to : F → F → Placed F → Option (Placed F)
  resize_to w h s =
      if less num w zero_size || less num h zero_size
      then none
      else some (record s {
        bounds = record {
          left = (s.bounds).left;
          top = (s.bounds).top;
          right = floor (num.plus ((s.bounds).left) w);
          bottom = floor (num.plus ((s.bounds).top) h);
        };
      })

  unfoldable pub resize_by : F → F → Placed F → Option (Placed F)
  resize_by dh dv s =
      resize_to (num.plus (num.minus ((s.bounds).right) ((s.bounds).left)) dh)
        (num.plus (num.minus ((s.bounds).bottom) ((s.bounds).top)) dv) s

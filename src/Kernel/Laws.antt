-- ===== src/Kernel/Laws.antt =====
-- How far `main` comes by itself: to `init_platform`, with what the parts before have set up.
use simple_os_rs.Common.{ℕ, ◌*◌, ◌%◌, ◌^◌, ◌<◌, ◌≤◌, ◌≡◌, refl, List, [], ◌∷◌, Option, some}
use simple_os_rs.Common.Outcome.{ok, ◌>>=◌}
use simple_os_rs.Terminal
use simple_os_rs.Terminal.{Info, Screen, Glyph, clear, print_mode}
use simple_os_rs.Terminal.Laws.{Fits, init-Fits}
use simple_os_rs.Terminal.Log.{Level, line_of, concat}
use simple_os_rs.Terminal.Log.Laws.{Plain, IsWhite, write_all-IsWhite}
use simple_os_rs.Virt.{phys_to_virt}
use simple_os_rs.Virt.Arch
use simple_os_rs.Phys.Storage.{PhysManagerStorage}
use simple_os_rs.Phys.Init.{MemorySegment, num_entries, num_storage_pages}
use simple_os_rs.Phys.Init.Segments.{Separate, Roomy}
use simple_os_rs.Phys.Init.Laws.{NoWrap, num_pages, Constructed, new-Constructed}
use simple_os_rs.Kernel.{KernelHeader, Machine, init_platform, log, main}

-- The pieces of a line of the log, with no escape in its context and its message.
pub record IsLine (pieces : List (List ℕ)) : Type 0 where
  pub level : Level
  pub ctx : List ℕ
  pub msg : List ℕ
  pub text : concat pieces ≡ line_of level ctx msg
  pub plain_ctx : Plain ctx
  pub plain_msg : Plain msg

abbrev pub AllLines : List (List (List ℕ)) → Type 0
AllLines [] = Unit
AllLines (line ∷ lines) = IsLine line × AllLines lines

-- The terminal fits its screen and prints in white.
pub record Ready (info : Info) : Type 0 where
  pub fits : Fits info
  pub white : IsWhite info

-- A screen on which the terminal works.
pub record Usable (s : Screen) : Type 0 where
  pub wide : 40 ≤ s.screen_width
  pub tall : 40 ≤ s.screen_height
  pub stride : s.screen_width ≤ s.screen_scanline_width
  pub stride_fits : s.screen_scanline_width < 2 ^ 32
  pub height_fits : s.screen_height < 2 ^ 32
  pub small : s.screen_scanline_width * s.screen_height * 4 < 2 ^ 32

start-Ready : (s : Screen) → Usable s → Ready (clear (Terminal.init s))
unfolding clear
start-Ready s u =
    let f = init-Fits s u.wide u.tall u.stride u.stride_fits u.height_fits u.small in
    record {
      fits = record {
        wide = f.wide;
        tall = f.tall;
        small = f.small;
        in_columns = f.in_columns;
        in_rows = f.in_rows;
        narrow = f.narrow;
        low = f.low;
      };
      white = record { mode = refl; red = refl; green = refl; blue = refl };
    }

module _ (get : ℕ → Option Glyph) (space : (g : Glyph) × (get 32 ≡ some g)) where
  log-Ready :
      (info : Info) (lines : List (List (List ℕ)))
      → Ready info
      → AllLines lines
      → (info' : Info) × (log get info lines ≡ ok info') × Ready info'
  unfolding log
  log-Ready info [] r l = (info, refl, r)
  log-Ready info (line ∷ lines) r (h, l) =
      let (t, e, f, w) =
        write_all-IsWhite get space info h.level h.ctx h.msg line h.text r.fits r.white.mode
          h.plain_ctx h.plain_msg in
      let (info', e', r') = log-Ready t lines (record { fits = f; white = w }) l in
      (info', rw e e', r')

module _ (get : ℕ → Option Glyph) (storage : PhysManagerStorage) (stub : ℕ → ℕ)
    (space : (g : Glyph) × (get 32 ≡ some g)) where
  -- What `main` has set up when it comes to `init_platform`.
  pub record Booted (machine : Machine) (greetings : List (List (List ℕ))) (kh : KernelHeader)
      (e : MemorySegment) (es : List MemorySegment) : Type 0 where
    pub info : Info
    pub ready : Ready info
    pub manager : Constructed storage machine.mem e es
    pub runs : main get storage stub machine greetings kh ≡ (
        init_platform storage kh.high_memory_base stub machine.before manager.manager
          (phys_to_virt kh.high_memory_base manager.placed.addr)
        >>= λ platform. ok (record {
          info = info;
          high_mem_base = kh.high_memory_base;
          active = Arch.init kh.high_memory_base kh.paging_info machine.pml4;
          platform = platform;
        }))

  pub main-Booted :
      (machine : Machine) (greetings : List (List (List ℕ))) (kh : KernelHeader) (e : MemorySegment)
      (es : List MemorySegment)
      → kh.memory_map ≡ e ∷ es
      → Usable kh.screen
      → AllLines greetings
      → NoWrap (e ∷ es)
      → Separate (e ∷ es)
      → Roomy (num_storage_pages (num_pages e es)) (e ∷ es)
      → 64 * num_entries (num_pages e es) ≤ storage.limit
      → 64 * num_entries (num_pages e es) % 256 ≡ 0
      → Booted machine greetings kh e es
  unfolding main
  main-Booted machine greetings kh e es map usable lines wrap sep room fits whole =
      let (info, logged, ready) =
        log-Ready get space (clear (Terminal.init kh.screen)) greetings
          (start-Ready kh.screen usable) lines in
      let c = new-Constructed storage machine.mem e es wrap sep room fits whole in
      record { info = info; ready = ready; manager = c; runs = rw (logged, map, c.returns) }

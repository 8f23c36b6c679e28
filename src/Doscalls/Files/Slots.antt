-- ===== src/Doscalls/Files/Slots.antt =====
-- native/doscalls.c: what the calls on file handles do to the table of slots.
use ine_debugger.Doscalls.Errors.{error_invalid_handle, error_invalid_parameter}
use ine_debugger.Prelude.{
  ℕ, zero, suc, ◌-◌, ◌<◌, ◌≤◌, ◌≡◌, ◌≢◌, refl, sym, ap, ◌∙◌, arith, inl, inr, ◌⊎◌,
}
use ine_debugger.Prelude.{true, false, none, some, List, [], ◌∷◌, ◌++◌}
use ine_debugger.Prelude.{length, length-append, length-replicate, get_elem?, set, replicate}
use ine_debugger.Prelude.{ltb, leb, ◌==◌, Bool-cases, Option-cases}
use ine_debugger.Doscalls.Files.{
  HFileInfo, Descriptor, closed, reserved, unix, is_closed, no_file, reserve, modify, set_closed,
}
use ine_debugger.Doscalls.Files.{
  System, get_h_file_unix_descriptor, dos_close, dos_query_fh_state, dos_set_max_fh,
}
use ine_debugger.Doscalls.Files.{dos_set_rel_max_fh, reset_front}

-- A handle that was free, with its descriptor reserved and nothing else changed.
pub record Reserves (h_files : List HFileInfo) (hf : ℕ) (table : List HFileInfo) : Type 0 where
  pub slot : HFileInfo
  pub was_there : get_elem? h_files hf ≡ some slot
  pub was_closed : slot.fd ≡ closed
  pub is_set : table ≡ set h_files hf (record slot { fd = reserved })

closed_of : (d : Descriptor) → is_closed d ≡ true → d ≡ closed
closed_of closed e = refl
closed_of reserved e = cc
closed_of (unix n) e = cc

pub reserve-Reserves :
    (h_files : List HFileInfo) (hf : ℕ) (table : List HFileInfo)
    → reserve h_files ≡ some (hf, table)
    → Reserves h_files hf table
unfolding reserve
reserve-Reserves [] hf table e = cc
reserve-Reserves (info ∷ infos) hf table e = elim (Bool-cases (is_closed info.fd)) [
  | inl free ↦
      let at : 0 ≡ hf = ground (arith, e, free) in
      let now : record info { fd = reserved } ∷ infos ≡ table = ground (arith, e, free) in
      rw (sym at) (record {
        slot = info;
        was_there = refl;
        was_closed = closed_of info.fd free;
        is_set = sym now;
      })
  | inr used ↦ elim (Option-cases (reserve infos)) [
    | inl none_left ↦ absurd (ground (arith, e, used, none_left))
    | inr (found, e') ↦
        let at : suc found.0 ≡ hf = ground (arith, e, used, e') in
        let now : info ∷ found.1 ≡ table = ground (arith, e, used, e') in
        let ih = reserve-Reserves infos found.0 found.1 e' in
        rw (sym at) (record {
          slot = ih.slot;
          was_there = ih.was_there;
          was_closed = ih.was_closed;
          is_set = sym now ∙ ap (λ (t : List HFileInfo). info ∷ t) ih.is_set;
        })
  ]
]

reserve_later :
    (first : HFileInfo) (infos : List HFileInfo) (found : ℕ × List HFileInfo)
    → reserve infos ≡ some found
    → reserve (first ∷ infos) ≢ none
unfolding reserve
reserve_later first infos found e' e = elim (Bool-cases (is_closed first.fd)) [
  | inl free ↦ ground (arith, e, free)
  | inr used ↦ ground (arith, e, used, e')
]

-- A search fails only where every slot is in use.
pub reserve-none :
    (h_files : List HFileInfo)
    → reserve h_files ≡ none
    → (h : ℕ) (info : HFileInfo) → get_elem? h_files h ≡ some info
    → is_closed info.fd ≡ false
unfolding reserve
reserve-none [] e h info g = cc
reserve-none (first ∷ infos) e zero info g = elim (Bool-cases (is_closed first.fd)) [
  | inl free ↦ absurd (ground (arith, e, free))
  | inr used ↦ let same : first ≡ info = cc in rw (sym same) used
]
reserve-none (first ∷ infos) e (suc h) info g =
    let further : reserve infos ≡ none = elim (Option-cases (reserve infos)) [
      | inl left ↦ left
      | inr (found, e') ↦ absurd (reserve_later first infos found e' e)
    ] in
    reserve-none infos further h info g

pub modify_here :
    (h_files : List HFileInfo) (h : ℕ) (info : HFileInfo) (f : HFileInfo → HFileInfo)
    → get_elem? h_files h ≡ some info
    → get_elem? (modify h_files h f) h ≡ some (f info)
modify_here [] h info f e = cc
modify_here (first ∷ infos) zero info f e =
    let same : first ≡ info = cc in ap (λ i. some (f i)) same
modify_here (first ∷ infos) (suc h) info f e = modify_here infos h info f e

pub modify_elsewhere :
    (h_files : List HFileInfo) (h k : ℕ) (f : HFileInfo → HFileInfo)
    → h ≢ k
    → get_elem? (modify h_files h f) k ≡ get_elem? h_files k
modify_elsewhere [] h k f d = refl
modify_elsewhere (first ∷ infos) zero zero f d = absurd (d refl)
modify_elsewhere (first ∷ infos) zero (suc k) f d = refl
modify_elsewhere (first ∷ infos) (suc h) zero f d = refl
modify_elsewhere (first ∷ infos) (suc h) (suc k) f d =
    modify_elsewhere infos h k f (λ e. d (ap suc e))

module _ {W : Type 0} (system : System W) where
  dos_close_unix :
      (h_files : List HFileInfo) (w : W) (h fd : ℕ)
      → get_h_file_unix_descriptor h_files h ≡ unix fd
      → 2 < fd
      → (system.close w fd).0 ≡ true
      → dos_close system h_files w h ≡ (0, modify h_files h set_closed, (system.close w fd).1)
  unfolding dos_close
  dos_close_unix h_files w h fd e above closes =
      let high : leb fd 2 ≡ false = ground (arith, above) in rw (dos_close, e, high, closes)

  -- A handle above the standard ones, whose descriptor the system closes, is no handle afterwards,
  -- and every other handle is what it was.
  pub dos_close-query :
      (h_files : List HFileInfo) (w : W) (h fd : ℕ)
      → get_h_file_unix_descriptor h_files h ≡ unix fd
      → 2 < fd
      → (system.close w fd).0 ≡ true
      → let (error, table, w') = dos_close system h_files w h in
        (error ≡ 0)
        × (w' ≡ (system.close w fd).1)
        × (dos_query_fh_state table h ≡ inl error_invalid_handle)
        × ((k : ℕ) → h ≢ k → dos_query_fh_state table k ≡ dos_query_fh_state h_files k)
  unfolding dos_close dos_query_fh_state get_h_file_unix_descriptor
  dos_close-query h_files w h fd e above closes = elim (Option-cases (get_elem? h_files h)) [
    | inl missing ↦ absurd (ground (arith, e, missing))
    | inr (info, there) ↦
        let result : dos_close system h_files w h
            ≡ (0, modify h_files h set_closed, (system.close w fd).1) =
          dos_close_unix h_files w h fd e above closes in
        rw result (
          refl,
          refl,
          rw (dos_query_fh_state, modify_here h_files h info set_closed there),
          λ k d. rw (dos_query_fh_state, modify_elsewhere h_files h k set_closed d),
        )
  ]

query_fresh :
    (h_files : List HFileInfo) (n h : ℕ)
    → dos_query_fh_state (h_files ++ replicate n no_file) h ≡ dos_query_fh_state h_files h
unfolding dos_query_fh_state
query_fresh [] zero h = refl
query_fresh [] (suc n) zero = refl
query_fresh [] (suc n) (suc h) = query_fresh [] n h
query_fresh (info ∷ infos) n zero = refl
query_fresh (info ∷ infos) n (suc h) = query_fresh infos n h

abbrev pub SetMax : List HFileInfo → ℕ → ℕ × List HFileInfo → Type 0
SetMax h_files c_fh (error, table) =
    ((error ≡ 0) × (length table ≡ c_fh) × (length h_files ≤ c_fh)
      ⊎ (error ≡ error_invalid_parameter) × (table ≡ h_files) × (c_fh < length h_files))
    × ((h : ℕ) → dos_query_fh_state table h ≡ dos_query_fh_state h_files h)

-- Growing the table: it has the size asked for, and every handle is what it was; the new ones are
-- free. Asking for less is an error, and changes nothing.
pub dos_set_max_fh-query :
    (h_files : List HFileInfo) (c_fh : ℕ) → SetMax h_files c_fh (dos_set_max_fh h_files c_fh true)
unfolding dos_set_max_fh
dos_set_max_fh-query h_files c_fh = elim (Bool-cases (ltb c_fh (length h_files))) [
  | inl less ↦ rw less (inr (refl, refl, ground (arith, less)), λ h. refl)
  | inr enough ↦ elim (Bool-cases (c_fh == length h_files)) [
    | inl same ↦
        rw (enough, same) (inl (refl, ground (arith, same), ground (arith, enough)), λ h. refl)
    | inr more ↦
        let grows : length h_files < c_fh = ground (arith, enough, more) in
        let size : length (h_files ++ replicate (c_fh - length h_files) no_file) ≡ c_fh = omega (
          arith,
          grows,
          length-append h_files (replicate (c_fh - length h_files) no_file),
          length-replicate (c_fh - length h_files) no_file,
        ) in
        rw (enough, more)
          (inl (refl, size, omega (arith, grows)), query_fresh h_files (c_fh - length h_files))
  ]
]

query_reset_front :
    (n : ℕ) (infos : List HFileInfo) (h : ℕ)
    → h < n
    → dos_query_fh_state (reset_front n infos) h ≡ inl error_invalid_handle
unfolding dos_query_fh_state
query_reset_front zero infos h b = absurd (omega (arith, b))
query_reset_front (suc n) [] h b = refl
query_reset_front (suc n) (info ∷ infos) zero b = refl
query_reset_front (suc n) (info ∷ infos) (suc h) b = query_reset_front n infos h (omega (arith, b))

-- Asking for more handles, where the memory is there, loses the first ones: as many as were asked
-- for are no handles afterwards, whatever files they stood for.
pub dos_set_rel_max_fh-query :
    (h_files : List HFileInfo) (incr : ℕ) (fresh : List HFileInfo) (h : ℕ)
    → h < incr
    → dos_query_fh_state (dos_set_rel_max_fh h_files incr fresh true).1 h ≡ inl error_invalid_handle
unfolding dos_set_rel_max_fh
dos_set_rel_max_fh-query h_files incr fresh h b =
    let some_more : ltb 0 incr ≡ true = ground (arith, b) in
    rw some_more (query_reset_front incr (h_files ++ fresh) h b)

-- ===== src/Networking/Tracking.antt =====
-- The manager knows just the connections that run, each under its handle.
use portal_framework.Base.{
  ℕ, ◌≡◌, ◌≢◌, refl, sym, ap, subst, ◌∙◌, true, false, not, Option, none, some, List, ok, ◌==◌,
  arith, Bool-cases, inl, inr,
}
use portal_framework.Base.Maps.{lookup, insert, erase, lookup-insert, lookup-erase, contains-none}
use portal_framework.Networking.{
  ConnectionState, initial, connecting, finding_route, connected, closed_by_peer,
  problem_detected_locally, Connection, Network, new_network, set_object, add_connection, connect,
  disconnect, set_state, on_status_changed,
}
use portal_framework.Networking.Objects.{
  erase-some, set_object_self, set_object_other, some-injective, each_object, insert-some,
}

pub record IsTracked (w : Network) : Type 0 where
  pub runs : (i : ℕ) → (w.objects i).running ≡ not ((w.objects i).connection == 0)
  pub listed :
      (i : ℕ)
      → (w.objects i).connection ≢ 0
      → lookup (w.objects i).connection w.connections ≡ some i
  pub named : (h i : ℕ) → lookup h w.connections ≡ some i → (w.objects i).connection ≡ h
  pub valid : (i : ℕ) → lookup 0 w.connections ≢ some i

pub new_network-IsTracked : IsTracked new_network
new_network-IsTracked = record {
  runs = λ i. refl;
  listed = λ i ne. absurd (ne refl);
  named = λ h i e. cc;
  valid = λ i e. cc;
}

-- A change of the state alone.
set_state-IsTracked :
    (i : ℕ) (s : ConnectionState) (w : Network) → IsTracked w → IsTracked (set_state i s w)
set_state-IsTracked i s w t =
    let same : (j : ℕ) → ((set_state i s w).objects j).connection ≡ (w.objects j).connection =
      λ j. ground arith in
    let same_run : (j : ℕ) → ((set_state i s w).objects j).running ≡ (w.objects j).running =
      λ j. ground arith in
    record {
      runs = λ j. rw (same j, same_run j) (t.runs j);
      listed = λ j ne. rw (same j) (t.listed j (rw (← same j) ne));
      named = λ h j e. same j ∙ t.named h j e;
      valid = t.valid;
    }

-- Two objects have no handle in common.
apart :
    (w : Network) (i j : ℕ)
    → IsTracked w
    → i ≢ j
    → (w.objects j).connection ≢ 0
    → (w.objects i).connection ≢ (w.objects j).connection
apart w i j t ne held same =
    let held' : (w.objects i).connection ≢ 0 = λ e. held (sym same ∙ e) in
    ne (
      some-injective
        (sym (t.listed i held') ∙ ap (λ x. lookup x w.connections) same ∙ t.listed j held))

-- An object that is given up is no longer known.
pub disconnect-IsTracked : (i : ℕ) (w : Network) → IsTracked w → IsTracked (disconnect i w)
unfolding disconnect
disconnect-IsTracked i w t =
    let c : Connection = w.objects i in
    let m : List (ℕ × ℕ) = erase c.connection w.connections in
    let gone : Connection = record c { connection = 0; running = false } in
    record {
      runs =
          each_object (λ j o. o.running ≡ not (o.connection == 0)) i gone w.objects refl
            (λ j ne. t.runs j);
      listed =
          each_object (λ j o. o.connection ≢ 0 → lookup o.connection m ≡ some j) i gone w.objects
            (λ ne. absurd (ne refl))
            (λ j ne held.
              let other : (c.connection == (w.objects j).connection) ≡ false =
                (let away : c.connection ≢ (w.objects j).connection = apart w i j t ne held in
                  ground arith) in
              lookup-erase c.connection (w.objects j).connection w.connections
              ∙ rw other (t.listed j held));
      named = λ h j e.
          let (away, e') = erase-some c.connection h j w.connections e in
          let own : (w.objects j).connection ≡ h = t.named h j e' in
          let ne : i ≢ j = λ same. away (ap (λ k. (w.objects k).connection) same ∙ own) in
          ap (λ o. o.connection) (set_object_other i j gone w.objects ne) ∙ own;
      valid = λ j e. t.valid j (erase-some c.connection 0 j w.connections e).1;
    }

-- An object that does not run has no handle, and no handle leads to it.
idle-connection :
    (w : Network) (i : ℕ)
    → IsTracked w
    → (w.objects i).running ≡ false
    → (w.objects i).connection ≡ 0
idle-connection w i t e = let run = t.runs i in ground arith

idle-unknown :
    (w : Network) (i h : ℕ)
    → IsTracked w
    → (w.objects i).connection ≡ 0
    → lookup h w.connections ≢ some i
idle-unknown w i h t e known =
    t.valid i (subst (λ k. lookup k w.connections ≡ some i) (sym (t.named h i known) ∙ e) known)

failed-IsTracked :
    (i : ℕ) (w : Network) (s : ConnectionState)
    → (w.objects i).running ≡ false
    → IsTracked w
    → IsTracked (record w {
      objects = set_object i (record (w.objects i) { connection = 0; state = s }) w.objects;
    })
failed-IsTracked i w s idle t =
    let c : Connection = record (w.objects i) { connection = 0; state = s } in
    let zero_handle = idle-connection w i t idle in
    record {
      runs =
          each_object (λ j o. o.running ≡ not (o.connection == 0)) i c w.objects idle
            (λ j ne. t.runs j);
      listed =
          each_object (λ j o. o.connection ≢ 0 → lookup o.connection w.connections ≡ some j) i c
            w.objects (λ ne. absurd (ne refl)) (λ j ne. t.listed j);
      named = λ h j e.
          let ne : i ≢ j = λ same.
            idle-unknown w i h t zero_handle
              (subst (λ k. lookup h w.connections ≡ some k) (sym same) e) in
          ap (λ o. o.connection) (set_object_other i j c w.objects ne) ∙ t.named h j e;
      valid = t.valid;
    }

registered-IsTracked :
    (h i : ℕ) (w : Network)
    → h ≢ 0
    → lookup h w.connections ≡ none
    → (w.objects i).running ≡ false
    → IsTracked w
    → IsTracked (record w {
      objects = set_object i (record (w.objects i) { connection = h; running = true }) w.objects;
      connections = insert h i w.connections;
    })
registered-IsTracked h i w valid new idle t =
    let c : Connection = record (w.objects i) { connection = h; running = true } in
    let m : List (ℕ × ℕ) = insert h i w.connections in
    let zero_handle = idle-connection w i t idle in
    let positive : (h == 0) ≡ false = ground arith in
    record {
      runs =
          each_object (λ j o. o.running ≡ not (o.connection == 0)) i c w.objects (rw positive)
            (λ j ne. t.runs j);
      listed =
          each_object (λ j o. o.connection ≢ 0 → lookup o.connection m ≡ some j) i c w.objects
            (λ ne.
              (let self : (h == h) ≡ true = ground arith in
                lookup-insert h h i w.connections ∙ rw self))
            (λ j ne held.
              let known = t.listed j held in
              let away : (h == (w.objects j).connection) ≡ false =
                (let ne' : h ≢ (w.objects j).connection = λ same.
                    (let both : ◌≡◌ {A = Option ℕ} none (some j) =
                        sym new ∙ ap (λ k. lookup k w.connections) same ∙ known in
                      cc) in
                  ground arith) in
              lookup-insert h (w.objects j).connection i w.connections ∙ rw away known);
      named = λ k j e. elim (insert-some h i k j w.connections e) [
        | inl both ↦
            subst (λ x. (set_object i c w.objects x).connection ≡ k) both.1
              (ap (λ o. o.connection) (set_object_self i c w.objects) ∙ both.0)
        | inr both ↦
            let ne : i ≢ j = λ same.
              idle-unknown w i k t zero_handle
                (subst (λ x. lookup k w.connections ≡ some x) (sym same) both.1) in
            ap (λ o. o.connection) (set_object_other i j c w.objects ne) ∙ t.named k j both.1
      ];
      valid = λ j e. elim (insert-some h i 0 j w.connections e) [
        | inl both ↦ valid both.0
        | inr both ↦ t.valid j both.1
      ];
    }

pub ok-IsTracked : {w w' : Network} → ok w ≡ ok w' → IsTracked w → IsTracked w'
ok-IsTracked {w = w} {w' = w'} e t = let same : w ≡ w' = cc in subst IsTracked same t

pub connect-IsTracked :
    (h i : ℕ) (w w' : Network)
    → lookup h w.connections ≡ none
    → connect h i w ≡ ok w'
    → IsTracked w
    → IsTracked w'
unfolding connect add_connection
connect-IsTracked h i w w' new e t = elim (Bool-cases (w.objects i).running) [
  | inl runs ↦ ok-IsTracked (sym (rw runs refl) ∙ e) t
  | inr idle ↦ elim (Bool-cases (h == 0)) [
    | inl invalid ↦
        ok-IsTracked (sym (rw (idle, invalid) refl) ∙ e)
          (failed-IsTracked i w problem_detected_locally idle t)
    | inr valid ↦
        let ne : h ≢ 0 = ground arith in
        let free = contains-none h w.connections new in
        ok-IsTracked (sym (rw (idle, valid, free) refl) ∙ e)
          (registered-IsTracked h i w ne new idle t)
  ]
]

pub on_status_changed-IsTracked :
    (i : ℕ) (s : ConnectionState) (w : Network) → IsTracked w → IsTracked (on_status_changed i s w)
unfolding on_status_changed
on_status_changed-IsTracked i initial w t = t
on_status_changed-IsTracked i closed_by_peer w t =
    disconnect-IsTracked i (set_state i closed_by_peer w) (set_state-IsTracked i closed_by_peer w t)
on_status_changed-IsTracked i problem_detected_locally w t =
    disconnect-IsTracked i (set_state i problem_detected_locally w)
      (set_state-IsTracked i problem_detected_locally w t)
on_status_changed-IsTracked i connecting w t = set_state-IsTracked i connecting w t
on_status_changed-IsTracked i finding_route w t = set_state-IsTracked i finding_route w t
on_status_changed-IsTracked i connected w t =
    let t' = set_state-IsTracked i connected w t in
    record { runs = t'.runs; listed = t'.listed; named = t'.named; valid = t'.valid }

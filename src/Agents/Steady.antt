-- ===== src/Agents/Steady.antt =====
-- Transactions that succeed and leave the tunnels as they are: rules like those of Store/Keeps.
use dark_noc.Base.{
  if◌then◌else◌, first_row, count_rows, ℕ, zero, suc, String, ◌≡◌, refl, ◌∙◌, Bool, true, false,
  Option, none, some, List, [], ◌∷◌,
}
use dark_noc.Base.Json.{Dict}
use dark_noc.Store.Table.{Row, Table, add, change}
use dark_noc.Store.Hub.{Hub, Relation, incidents, incident_events}
use dark_noc.Store.Tx.{
  ◌>>=◌, Result, ok, Tx, pure, utc_ts, insert, update, fetch_one, continue, for_each,
}
use dark_noc.Incident.{time_or_now, append_incident_event, resolve_incident}

pub record Leaves {A : Type 0} (r : Result (A × Hub)) (h : Hub) : Type 0 where
  pub answer : A
  pub after : Hub
  pub is_ok : r ≡ ok (answer, after)
  pub same : after.tunnel_table ≡ h.tunnel_table

pub record Steady {A : Type 0} (m : Tx A) : Type 0 where
  pub at : (h : Hub) → Leaves (m h) h

-- A table other than the tunnels.
pub record Other {C : Type 0} (r : Relation C) : Type 0 where
  same : (h : Hub) (t : Table C) → (r.write t h).tunnel_table ≡ h.tunnel_table

pub Other-incidents : Other incidents
Other-incidents = record { same = λ h t. refl }

pub Other-incident_events : Other incident_events
Other-incident_events = record { same = λ h t. refl }

pub Steady-pure : {A : Type 0} (a : A) → Steady (pure a)
unfolding ◌>>=◌
Steady-pure a = record { at = λ h. record { answer = a; after = h; is_ok = refl; same = refl } }

pub Steady-utc_ts : Steady utc_ts
unfolding ◌>>=◌
Steady-utc_ts = record {
  at = λ h. record {
    answer = h.clock h.readings;
    after = record h { readings = suc h.readings };
    is_ok = refl;
    same = refl;
  };
}

module _ {C : Type 0} (r : Relation C) where
  pub Steady-fetch_one : (test : Row C → Bool) → Steady (fetch_one r test)
  unfolding ◌>>=◌
  Steady-fetch_one test = record {
    at = λ h. record {
      answer = first_row test (r.read h).rows;
      after = h;
      is_ok = refl;
      same = refl;
    };
  }

  pub Steady-insert : Other r → (c : C) → Steady (insert r c)
  unfolding ◌>>=◌
  Steady-insert other c = record {
    at = λ h. record {
      answer = (r.read h).next_id;
      after = r.write (add c (r.read h)) h;
      is_ok = refl;
      same = other.same h (add c (r.read h));
    };
  }

  pub Steady-update : Other r → (test : Row C → Bool) (f : C → C) → Steady (update r test f)
  unfolding ◌>>=◌
  Steady-update other test f = record {
    at = λ h. record {
      answer = count_rows test (r.read h).rows;
      after = r.write (change test f (r.read h)) h;
      is_ok = refl;
      same = other.same h (change test f (r.read h));
    };
  }

module _ {A B : Type 0} where
  continue-Leaves :
      (h : Hub) (f : A → Tx B) (x : Result (A × Hub))
      → Leaves x h
      → ((a : A) → Steady (f a))
      → Leaves (continue x f) h
  continue-Leaves h f x l k =
      let later = (k l.answer).at l.after in
      record {
        answer = later.answer;
        after = later.after;
        is_ok = rw l.is_ok later.is_ok;
        same = later.same ∙ l.same;
      }

  pub Steady-bind :
      (m : Tx A) (f : A → Tx B) → Steady m → ((a : A) → Steady (f a)) → Steady (m >>= f)
  unfolding ◌>>=◌
  Steady-bind m f s k = record { at = λ h. continue-Leaves h f (m h) (s.at h) k }

pub Steady-if :
    {A : Type 0} (b : Bool) (m k : Tx A) → Steady m → Steady k → Steady (if b then m else k)
Steady-if true m k sm sk = sm
Steady-if false m k sm sk = sk

pub Steady-for_each :
    {A : Type 0} (xs : List A) (body : A → Tx (Unit {0}))
    → ((x : A) → Steady (body x))
    → Steady (for_each xs body)
unfolding for_each
Steady-for_each [] body k = Steady-pure tt
Steady-for_each (x ∷ xs) body k = Steady-bind _ _ (k x) (λ _. Steady-for_each xs body k)

pub ruleset steady_rules = (
  Steady-pure, Steady-utc_ts, Steady-fetch_one, Steady-insert, Steady-update, Steady-bind,
  Steady-if, Steady-for_each, Other-incidents, Other-incident_events,
)

time_or_now-Steady : (t : Option ℕ) → Steady (time_or_now t)
unfolding time_or_now
time_or_now-Steady none = Steady-utc_ts
time_or_now-Steady (some zero) = Steady-utc_ts
time_or_now-Steady (some (suc t)) = Steady-pure _

append_incident_event-Steady :
    (n : ℕ) (t m : String) (info : Dict) (actor at : Option ℕ)
    → Steady (append_incident_event n t m info actor at)
unfolding append_incident_event
append_incident_event-Steady n t m info actor at =
    search (steady_rules, time_or_now-Steady) depth 12

pub resolve_incident-Steady :
    (n : ℕ) (message : String) (actor : Option ℕ) (resolution : Option String)
    → Steady (resolve_incident n message actor resolution)
unfolding resolve_incident
resolve_incident-Steady n message actor resolution =
    search (steady_rules, append_incident_event-Steady) depth 16

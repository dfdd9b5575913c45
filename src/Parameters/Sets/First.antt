-- ===== src/Parameters/Sets/First.antt =====
-- Rows of the table of rfc6330_alg/parameters.c, from K' = 10 to K' = 703.
use tv_rq.Prelude.{List, [], ◌∷◌}
use tv_rq.Parameters.Row.{BaseParamSet, row}

unfoldable pub first_sets : List BaseParamSet
first_sets =
    row 10 254 7 10 17
    ∷ row 12 630 7 10 19
    ∷ row 18 682 11 10 29
    ∷ row 20 293 11 10 31
    ∷ row 26 80 11 10 37
    ∷ row 30 566 11 10 41
    ∷ row 32 860 11 10 43
    ∷ row 36 267 11 10 47
    ∷ row 42 822 11 10 53
    ∷ row 46 506 13 10 59
    ∷ row 48 589 13 10 61
    ∷ row 49 87 13 10 61
    ∷ row 55 520 13 10 67
    ∷ row 60 159 13 10 71
    ∷ row 62 235 13 10 73
    ∷ row 69 157 13 10 79
    ∷ row 75 502 17 10 89
    ∷ row 84 334 17 10 97
    ∷ row 88 583 17 10 101
    ∷ row 91 66 17 10 103
    ∷ row 95 352 17 10 107
    ∷ row 97 365 17 10 109
    ∷ row 101 562 17 10 113
    ∷ row 114 5 19 10 127
    ∷ row 119 603 19 10 131
    ∷ row 125 721 19 10 137
    ∷ row 127 28 19 10 139
    ∷ row 138 660 19 10 149
    ∷ row 140 829 19 10 151
    ∷ row 149 900 23 10 163
    ∷ row 153 930 23 10 167
    ∷ row 160 814 23 10 173
    ∷ row 166 661 23 10 179
    ∷ row 168 693 23 10 181
    ∷ row 179 780 23 10 191
    ∷ row 181 605 23 10 193
    ∷ row 185 551 23 10 197
    ∷ row 187 777 23 10 199
    ∷ row 200 491 23 10 211
    ∷ row 213 396 23 10 223
    ∷ row 217 764 29 10 233
    ∷ row 225 843 29 10 241
    ∷ row 236 646 29 10 251
    ∷ row 242 557 29 10 257
    ∷ row 248 608 29 10 263
    ∷ row 257 265 29 10 271
    ∷ row 263 505 29 10 277
    ∷ row 269 722 29 10 283
    ∷ row 280 263 29 10 293
    ∷ row 295 999 29 10 307
    ∷ row 301 874 29 10 313
    ∷ row 305 160 29 10 317
    ∷ row 324 575 31 10 337
    ∷ row 337 210 31 10 349
    ∷ row 341 513 31 10 353
    ∷ row 347 503 31 10 359
    ∷ row 355 558 31 10 367
    ∷ row 362 932 31 10 373
    ∷ row 368 404 31 10 379
    ∷ row 372 520 37 10 389
    ∷ row 380 846 37 10 397
    ∷ row 385 485 37 10 401
    ∷ row 393 728 37 10 409
    ∷ row 405 554 37 10 421
    ∷ row 418 471 37 10 433
    ∷ row 428 641 37 10 443
    ∷ row 434 732 37 10 449
    ∷ row 447 193 37 10 461
    ∷ row 453 934 37 10 467
    ∷ row 466 864 37 10 479
    ∷ row 478 790 37 10 491
    ∷ row 486 912 37 10 499
    ∷ row 491 617 37 10 503
    ∷ row 497 587 37 10 509
    ∷ row 511 800 37 10 523
    ∷ row 526 923 41 10 541
    ∷ row 532 998 41 10 547
    ∷ row 542 92 41 10 557
    ∷ row 549 497 41 10 563
    ∷ row 557 559 41 10 571
    ∷ row 563 667 41 10 577
    ∷ row 573 912 41 10 587
    ∷ row 580 262 41 10 593
    ∷ row 588 152 41 10 601
    ∷ row 594 526 41 10 607
    ∷ row 600 268 41 10 613
    ∷ row 606 212 41 10 619
    ∷ row 619 45 41 10 631
    ∷ row 633 898 43 10 647
    ∷ row 640 527 43 10 653
    ∷ row 648 558 43 10 661
    ∷ row 666 460 47 10 683
    ∷ row 675 5 47 10 691
    ∷ row 685 895 47 10 701
    ∷ row 693 996 47 10 709
    ∷ row 703 282 47 10 719
    ∷ []
